-- ===== src/Cli/Verdicts.antt =====
-- From a command of the user to what the agent is told: the processes of hook_cmd.rs and of cli.rs,
-- their connections to the daemon, and the main loop between them.
use agent_dash.Prelude.{
  String, true, false, Option, none, some, List, [], ◌∷◌, ◌++◌, ◌≡◌, refl, ap, ◌∙◌, ◌==◌, unwrap_or,
  and_then,
}
use Prim.Native.String.{◌++◌ as ◌<>◌}
use agent_dash.Messages.Json.{Json}
use agent_dash.Messages.Strings.{trim}
use agent_dash.Protocol.{HookPermissionDecision}
use agent_dash.Protocol.Requests.{ClientRequest}
use agent_dash.HookCmd as HookCmd
use agent_dash.HookCmd.{
  Printed, request_id_of, str_of, extract_tool_detail, print_answer, translate_permission_decision,
}
use agent_dash.Daemon.{Daemon, Env}
use agent_dash.Daemon.Loop as Loop
use agent_dash.Daemon.Loop.{ClientMessage, Turn, client, turn, handle_client}
use agent_dash.Daemon.Calm.{decisions}
use agent_dash.Daemon.Decisions.{reply_to}
use agent_dash.Daemon.Decisions.Between.{all_plain, response-request}
use agent_dash.Listener as Listener
use agent_dash.Listener.{
  Codec, Conn, line, eof, decision, start, Input, enter, done, reading, write, write_line,
  request_of, step, dispatch,
}
use agent_dash.Listener.Left.{turns_of, run-append}
use agent_dash.Cli.{
  Command, approve, approve_similar, deny, status, read_messages, sessions, watch, watch_events,
  inject, request_for,
}

-- the request that a command decides
abbrev pub decides : Command → Option String
decides (approve rid) = some rid
decides (approve_similar rid) = some rid
decides (deny rid) = some rid
decides _ = none

-- what the agent is then told
abbrev pub spoken : Command → (tool : String) → Printed
spoken (approve_similar _) tool = HookCmd.allow ((tool, "allow") ∷ [])
spoken (deny _) tool = HookCmd.deny "Denied from agent-dash"
spoken _ tool = HookCmd.allow []

abbrev decision_text : Command → String
decision_text (approve_similar _) = "allow_similar"
decision_text (deny _) = "deny"
decision_text _ = "allow"

module _ {V : Type 0} (json : Json V) where
  -- what the hook process asks of the daemon
  abbrev pub asked : (fresh : String) → V → (sid : String) → ClientRequest V
  asked fresh input sid =
      ClientRequest.permission_request (request_id_of json fresh input) sid
        (str_of json "tool_name" input)
        (extract_tool_detail json input (str_of json "tool_name" input))
        (unwrap_or (and_then (json.get "permission_suggestions" input) json.as_array) [])

  spoken-translated :
      (command : Command) (rid tool : String)
      → decides command ≡ some rid
      → translate_permission_decision json (reply_to rid (decision_text command) none) tool
        ≡ spoken command tool
  unfolding translate_permission_decision
  spoken-translated status rid tool e = absurd (cc)
  spoken-translated (read_messages _ _ _) rid tool e = absurd (cc)
  spoken-translated (sessions _) rid tool e = absurd (cc)
  spoken-translated (watch _ _) rid tool e = absurd (cc)
  spoken-translated watch_events rid tool e = absurd (cc)
  spoken-translated (inject _ _) rid tool e = absurd (cc)
  spoken-translated (approve _) rid tool e = refl
  spoken-translated (approve_similar _) rid tool e = refl
  spoken-translated (deny _) rid tool e = refl

  -- a command that decides a request sends its verdict on it
  request_for-verdict :
      (command : Command) (rid : String)
      → decides command ≡ some rid
      → request_for {V = V} command
        ≡ ClientRequest.permission_response rid "" (decision_text command) none
  unfolding request_for
  request_for-verdict status rid e = absurd (cc)
  request_for-verdict (read_messages _ _ _) rid e = absurd (cc)
  request_for-verdict (sessions _) rid e = absurd (cc)
  request_for-verdict (watch _ _) rid e = absurd (cc)
  request_for-verdict watch_events rid e = absurd (cc)
  request_for-verdict (inject _ _) rid e = absurd (cc)
  request_for-verdict (approve r) rid e = let same : r ≡ rid = cc in rw same refl
  request_for-verdict (approve_similar r) rid e = let same : r ≡ rid = cc in rw same refl
  request_for-verdict (deny r) rid e = let same : r ≡ rid = cc in rw same refl

-- the main loop between a request and its answer
verdict_told :
    {V P : Type 0} (env env' : Env V P) (rid sid tool detail answer : String) (suggestions : List V)
    (turns : List (Env V P × Turn V)) (d : Daemon V P)
    → all_plain turns ≡ true
    → decisions
        (Loop.run
          ((env, client (ClientMessage.permission_request rid sid tool detail suggestions 0))
              ∷ turns
            ++ (env', client (ClientMessage.permission_response rid "" answer none)) ∷ [])
          d).outputs
      ≡ (0, reply_to rid answer none) ∷ decisions d.outputs
unfolding Loop.run turn handle_client
verdict_told {V = V} {P = P} env env' rid sid tool detail answer suggestions turns d plain =
    ap (λ (x : Daemon V P). decisions x.outputs)
      (run-append turns ((env', client (ClientMessage.permission_response rid "" answer none)) ∷ [])
        (turn env (client (ClientMessage.permission_request rid sid tool detail suggestions 0)) d))
    ∙ response-request env env' rid sid tool detail answer suggestions none 0 turns d plain

-- a connection that begins with a request
run-request :
    {V : Type 0} (codec : Codec V) (t : String) (req : ClientRequest V) (inputs : List (Input V))
    → request_of codec t ≡ some req
    → Listener.run codec (line t ∷ inputs) start ≡ Listener.run codec inputs (dispatch req start)
unfolding Listener.run step
run-request {V = V} codec t req inputs e =
    ap
      (λ (o : Option (ClientRequest V)).
        Listener.run codec inputs (elim o [ none ↦ start | some r ↦ dispatch r start ]))
      e

module _ {V P : Type 0} (json : Json V) (codec : Codec V)
    (decode : String → Option (HookPermissionDecision V)) where
  -- Let serde read what it writes. When a hook process has asked for a permission, and the user gives
  -- a command that decides the request, whatever turns come in between that are not about permission
  -- requests: the main loop tells the waiting connection of the hook, and no other, and from what that
  -- connection writes the hook process prints for the agent what the command means.
  pub verdict_reaches_agent :
      (env env' : Env V P) (fresh sid asking deciding reply : String) (input : V)
      (command : Command) (turns : List (Env V P × Turn V)) (d : Daemon V P)
      → decides command ≡ some (request_id_of json fresh input)
      → all_plain turns ≡ true
      → request_of codec asking ≡ some (asked json fresh input sid)
      → request_of codec deciding ≡ some (request_for command)
      → codec.decision_json (reply_to (request_id_of json fresh input) (decision_text command) none)
        ≡ some reply
      → (trim (reply <> "\n") == "") ≡ false
      → decode (trim (reply <> "\n"))
        ≡ some (reply_to (request_id_of json fresh input) (decision_text command) none)
      → (c₁ : Conn V) × (Listener.run codec (line asking ∷ []) start ≡ some c₁)
        × (c₂ : Conn V) × (Listener.run codec (line deciding ∷ eof ∷ []) start ≡ some c₂)
        × (told : HookPermissionDecision V) × (decisions
              (Loop.run (turns_of env c₁.sent ++ turns ++ turns_of env' c₂.sent) d).outputs
            ≡ (0, told) ∷ decisions d.outputs)
        × (c₃ : Conn V) × (Listener.run codec (line asking ∷ decision (some told) ∷ []) start
            ≡ some c₃)
        × (text : String) × (c₃.written ≡ text ∷ [])
        × (print_answer json decode (str_of json "tool_name" input) (some text)
            ≡ some (spoken command (str_of json "tool_name" input)))
  unfolding Listener.run step dispatch print_answer
  verdict_reaches_agent env env' fresh sid asking deciding reply input command turns d e plain ask
        decide written full read =
      let rid = request_id_of json fresh input in
      let tool = str_of json "tool_name" input in
      let told = reply_to rid (decision_text command) none in
      let request : ClientRequest V = asked json fresh input sid in
      let response : ClientRequest V =
        ClientRequest.permission_response rid "" (decision_text command) none in
      let verdict = decide ∙ ap some (request_for-verdict json command rid e) in
      (
        dispatch request start,
        run-request codec asking request [] ask,
        enter done (dispatch response start),
        run-request codec deciding response (eof ∷ []) verdict,
        told,
        verdict_told env env' rid sid tool (extract_tool_detail json input tool)
            (decision_text command)
            (unwrap_or (and_then (json.get "permission_suggestions" input) json.as_array) []) turns
            d plain,
        enter reading (write (reply <> "\n") (dispatch request start)),
        run-request codec asking request (decision (some told) ∷ []) ask
            ∙ ap (λ o. some (enter reading (write_line codec o (dispatch request start)))) written,
        reply <> "\n",
        refl,
        rw (full, read) (ap some (spoken-translated json command rid tool e)),
      )
