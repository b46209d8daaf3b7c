-- ===== src/HookCmd.antt =====
-- crates/agent-dash/src/hook_cmd.rs: the process that an agent's hook runs. It reads one JSON value,
-- sends an event or a permission request to the daemon, and for a request translates the answer.
-- What the sockets do is left out: only what is sent, and what a line that is read back means.
pub mod Faithful
mod Tests
use agent_dash.Prelude.{
  ℕ, zero, suc, ◌<◌, String, Bool, Option, none, some, List, [], ◌∷◌, ◌==◌, ◌||◌, if◌then◌else◌,
  ltb, and_then, map_option, unwrap_or, is_empty,
}
use Prim.Native.String.{count, ◌++◌}
use Prim.Native.String as S
use package.text.Mathlib.Text.{starts_with}
use agent_dash.Paths.{replace}
use agent_dash.Messages.Json.{Json, get_str}
use agent_dash.Messages.Strings.{trim}
use agent_dash.Protocol.{
  HookEnvelope, HookEvent, tool_start, tool_end, stop, session_start, session_end,
  HookPermissionDecision,
}

-- what is sent to the daemon
pub data Sent (V : Type 0) : Type 0 where
  event : (event : HookEvent) → Sent V
  request : (request_id session_id tool detail : String) (suggestions : List V) → Sent V

-- what is printed for the agent: the `decision` object of `hookSpecificOutput`
pub data Printed : Type 0 where
  deny : (message : String) → Printed
  allow : (updated_permissions : List (String × String)) → Printed

-- `chars().take(n).collect()`
unfoldable pub take_chars : ℕ → String → String
take_chars zero s = ""
take_chars (suc n) S.[] = ""
take_chars (suc n) (S.◌∷◌ c s) = S.◌∷◌ c (take_chars n s)

abbrev pub shorten : String → String
shorten s = if ltb 500 (count s) then take_chars 500 s else s

-- the bytes that go to the hook socket, if it is there and the envelope has a text
unfoldable pub send_hook_event :
    Bool → (HookEnvelope → Option String) → Option String → HookEvent → Option String
send_hook_event exists to_string wrapper e =
    if exists
    then map_option (λ text. text ++ "\n") (to_string (record { event = e; wrapper_id = wrapper }))
    else none

module _ {V : Type 0} (json : Json V) where
  abbrev pub str_of : String → V → String
  str_of key v = unwrap_or (get_str json key v) ""

  -- `input.get("tool_input").and_then(|ti| ti.get(key)).and_then(|v| v.as_str()).unwrap_or("")`
  abbrev pub input_str : String → V → String
  input_str key input = unwrap_or (and_then (json.get "tool_input" input) (get_str json key)) ""

  abbrev pub with_description : String → String → String
  with_description cmd desc = if desc == "" then cmd else (cmd ++ "\n") ++ desc

  unfoldable pub extract_tool_detail : V → String → String
  extract_tool_detail input tool =
      if tool == "Bash"
      then shorten (with_description (input_str "command" input) (input_str "description" input))
      else if tool == "Read" || tool == "Edit" || tool == "Write"
      then input_str "file_path" input
      else if tool == "Grep" || tool == "Glob"
      then input_str "pattern" input
      else if tool == "WebFetch"
      then input_str "url" input
      else if tool == "WebSearch"
      then input_str "query" input
      else if starts_with tool "Task"
      then input_str "description" input
      else tool

  abbrev pub start_event : V → String → HookEvent
  start_event input sid =
      tool_start sid (str_of "tool_name" input)
        (extract_tool_detail input (str_of "tool_name" input)) (str_of "tool_use_id" input)

  -- the id of the tool's use, or else a generated one
  abbrev pub request_id_of : String → V → String
  request_id_of fresh input =
      if str_of "tool_use_id" input == "" then fresh else str_of "tool_use_id" input

  abbrev pub request_of : String → V → String → Sent V
  request_of fresh input sid =
      request (request_id_of fresh input) sid (str_of "tool_name" input)
        (extract_tool_detail input (str_of "tool_name" input))
        (unwrap_or (and_then (json.get "permission_suggestions" input) json.as_array) [])

  -- the `match` on the event's type, once underscores are hyphens
  unfoldable pub dispatch : String → String → V → String → Option (Sent V)
  dispatch fresh kind input sid =
      if kind == "pre-tool-use" || kind == "tool-start"
      then some (event (start_event input sid))
      else if kind == "post-tool-use" || kind == "tool-end"
      then some (event (tool_end sid (str_of "tool_use_id" input)))
      else if kind == "stop"
      then some (event (stop sid))
      else if kind == "session-start"
      then some (event (session_start sid (get_str json "cwd" input)))
      else if kind == "session-end"
      then some (event (session_end sid))
      else if kind == "permission"
      then some (request_of fresh input sid)
      else none

  abbrev pub run_value : String → String → V → Option (Sent V)
  run_value fresh event_type input =
      if str_of "session_id" input == ""
      then none
      else dispatch fresh (replace "_" "-" event_type) input (str_of "session_id" input)

  -- `run`, on the text of standard input
  unfoldable pub run : String → String → String → Option (Sent V)
  run fresh event_type stdin = and_then (json.from_str stdin) (run_value fresh event_type)

  unfoldable pub build_updated_permissions : V → List (String × String)
  build_updated_permissions suggestion =
      if str_of "type" suggestion == "toolAlwaysAllow"
      then elim (get_str json "tool" suggestion) [ none ↦ [] | some tool ↦ (tool, "allow") ∷ [] ]
      else []

  unfoldable pub translate_permission_decision : HookPermissionDecision V → String → Printed
  translate_permission_decision d tool =
      if d.decision == "deny"
      then deny "Denied from agent-dash"
      else if d.decision == "allow_similar"
      then allow ((tool, "allow") ∷ [])
      else allow (unwrap_or (map_option build_updated_permissions d.suggestion) [])

  -- the rest of `handle_permission`, once `read_line` has returned: the argument is what it read, of
  -- at most 65536 bytes, and nothing where it failed or 120 seconds have passed
  unfoldable pub print_answer :
      (String → Option (HookPermissionDecision V)) → String → Option String → Option Printed
  print_answer decode tool none = none
  print_answer decode tool (some line) =
      if trim line == ""
      then none
      else map_option (λ d. translate_permission_decision d tool) (decode (trim line))
