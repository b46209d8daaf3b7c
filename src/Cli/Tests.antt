-- ===== src/Cli/Tests.antt =====
-- Commands and what they print, after the tests of cli.rs, and the theorem at a denial.
use agent_dash.Prelude.{
  ℕ, String, false, Option, none, some, [], ◌∷◌, ◌++◌, ◌≡◌, refl, ◌==◌, if◌then◌else◌, nat_eq,
}
use agent_dash.Messages.Json.{Json}
use agent_dash.Messages.Strings.{trim_start, trim_end, decimal}
use agent_dash.Protocol.{HookPermissionDecision, ServerEvent, error, prompt_sent}
use agent_dash.Protocol.Requests.{ClientRequest}
use agent_dash.Session.{DashSession}
use agent_dash.HookCmd.{print_answer, extract_tool_detail}
use agent_dash.Daemon.Loop as Loop
use agent_dash.Daemon.Loop.{Turn, tick, new}
use agent_dash.Daemon.Calm.{decisions}
use agent_dash.Daemon.Decisions.{reply_to}
use agent_dash.Daemon.Tests.{env}
use agent_dash.Listener as Listener
use agent_dash.Listener.{Codec, Conn, line, eof, decision, start}
use agent_dash.Listener.Left.{turns_of}
use agent_dash.Cli.{deny, inject, request_for, await, ending, truncate, status_line}
use agent_dash.Cli.Verdicts.{spoken, verdict_reaches_agent}

-- a cut inside a character keeps the whole text
not_cut : truncate "héllo" 2 ≡ "héllo"
unfolding truncate
not_cut = refl

abbrev listed : DashSession
listed = record {
  session_id = "0123456789";
  project_name = "agent-dash";
  branch = "main";
  status = "working";
  last_status_change = 0;
  jsonl_path = none;
  input_reason = none;
  active_tool = some (record { name = "Bash"; detail = "ls"; icon = "i" });
  subagent_count = 2;
  prompt_suggestion = none;
  thinking_text = none;
}

row : status_line listed ≡ "agent-dash   main       working    01234567 [Bash:ls] (+2 subagents)"
unfolding status_line truncate decimal
row = refl

abbrev events : String → Option (ServerEvent ℕ)
events s =
    if s == "e" then some (error "gone") else if s == "p" then some (prompt_sent "s1") else none

failed :
    await events (inject "s1" "hi") (some "junk" ∷ some "e" ∷ some "p" ∷ [])
    ≡ record { printed = []; failure = some "Error: gone" }
unfolding await ending
failed = refl

-- values are numbers: 0 is the input, 1 and 2 the texts of its fields
abbrev json : Json ℕ
json = record {
  from_str = λ s. none;
  as_str = λ v. if nat_eq v 1 then some "r1" else some "Bash";
  as_array = λ v. none;
  is_object = λ v. false;
  get =
      λ key v. if key == "tool_use_id" then some 1 else if key == "tool_name" then some 2 else none;
}

abbrev codec : Codec ℕ
codec = record {
  read_request = λ s.
      if s == "ask"
      then some (ClientRequest.permission_request "r1" "s" "Bash" "" [])
      else if s == "deny"
      then some (ClientRequest.permission_response "r1" "" "deny" none)
      else none;
  event_json = λ e. none;
  decision_json = λ d. some d.decision;
}

abbrev decode : String → Option (HookPermissionDecision ℕ)
decode s = if s == "deny" then some (reply_to "r1" "deny" none) else none

verdict_reaches_agent_example :
    (c₁ : Conn ℕ) × (Listener.run codec (line "ask" ∷ []) start ≡ some c₁)
    × (c₂ : Conn ℕ) × (Listener.run codec (line "deny" ∷ eof ∷ []) start ≡ some c₂)
    × (told : HookPermissionDecision ℕ) × (decisions
          (Loop.run
            (turns_of env c₁.sent ++ ((env, tick) ∷ []) ++ turns_of env c₂.sent)
            new).outputs
        ≡ (0, told) ∷ [])
    × (c₃ : Conn ℕ) × (Listener.run codec (line "ask" ∷ decision (some told) ∷ []) start ≡ some c₃)
    × (text : String) × (c₃.written ≡ text ∷ [])
    × (print_answer json decode "Bash" (some text) ≡ some (spoken (deny "r1") "Bash"))
unfolding trim_end trim_start extract_tool_detail request_for decisions
verdict_reaches_agent_example =
    verdict_reaches_agent json codec decode env env "p" "s" "ask" "deny" "deny" 0 (deny "r1")
      ((env, tick) ∷ []) new refl refl refl refl refl refl refl
