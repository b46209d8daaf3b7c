-- ===== src/Session.antt =====
-- crates/agent-dash-core/src/session.rs: the status of a session, and the records that clients
-- receive. Serialisation attributes are not modelled.
use agent_dash.Prelude.{ℕ, String, Bool, true, false, Option, ◌==◌, if◌then◌else◌}

pub data SessionStatus : Type 0 where
  needs_input working idle ended : SessionStatus

-- the derived `PartialEq`
abbrev pub status_eq : SessionStatus → SessionStatus → Bool
status_eq needs_input needs_input = true
status_eq working working = true
status_eq idle idle = true
status_eq ended ended = true
status_eq _ _ = false

unfoldable pub sort_key : SessionStatus → ℕ
sort_key needs_input = 0
sort_key working = 1
sort_key idle = 2
sort_key ended = 3

unfoldable pub as_str : SessionStatus → String
as_str needs_input = "needs_input"
as_str working = "working"
as_str idle = "idle"
as_str ended = "ended"

pub record DashInputReason : Type 0 where
  pub reason_type : String
  pub tool : Option String
  pub command : Option String
  pub detail : Option String
  pub text : Option String

pub record DashActiveTool : Type 0 where
  pub name : String
  pub detail : String
  pub icon : String

pub record DashSession : Type 0 where
  pub session_id : String
  pub project_name : String
  pub branch : String
  pub status : String
  pub last_status_change : ℕ
  pub jsonl_path : Option String
  pub input_reason : Option DashInputReason
  pub active_tool : Option DashActiveTool
  pub subagent_count : ℕ
  pub prompt_suggestion : Option String
  pub thinking_text : Option String

unfoldable pub tool_icon : String → String
tool_icon tool_name =
    if tool_name == "Bash"
    then "utilities-terminal-symbolic"
    else if tool_name == "Read"
    then "document-open-symbolic"
    else if tool_name == "Edit"
    then "document-edit-symbolic"
    else if tool_name == "Write"
    then "document-new-symbolic"
    else if tool_name == "Grep"
    then "edit-find-symbolic"
    else if tool_name == "Glob"
    then "folder-saved-search-symbolic"
    else if tool_name == "WebFetch"
    then "web-browser-symbolic"
    else if tool_name == "WebSearch"
    then "system-search-symbolic"
    else if tool_name == "Task"
    then "system-run-symbolic"
    else "applications-system-symbolic"
