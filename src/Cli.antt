-- ===== src/Cli.antt =====
-- crates/agent-dash/src/cli.rs, the commands that ask a running daemon, and the arms of `main` in
-- crates/agent-dash/src/main.rs that call them. A command sends one request and reads lines; serde is
-- a parameter, and a line that cannot be read is `none`.
pub mod Verdicts
mod Tests
use agent_dash.Prelude.{
  ℕ, zero, suc, ◌-◌, String, Bool, true, false, Option, none, some, List, [], ◌∷◌, ◌++◌, ◌==◌, ltb,
  leb, if◌then◌else◌, and_then, map, map_option, unwrap_or, ◌&&◌,
}
use Prim.Native.String.{◌++◌ as ◌<>◌, len, slice, count}
use package.text.Mathlib.Text.{is_char_boundary}
use agent_dash.Session.{DashSession, DashActiveTool}
use agent_dash.Protocol.{
  ServerEvent, state_update, messages, session_list, prompt_sent, error, ContentBlock, text,
  tool_use, tool_result, ChatContent, structured, rendered, ChatMessage, SessionListEntry,
}
use agent_dash.Protocol.Requests.{ClientRequest}
use agent_dash.Messages.Strings.{show}

-- `s.get(..max).unwrap_or(s)`
unfoldable pub truncate : String → ℕ → String
truncate s max = if leb max (len s) && is_char_boundary s max then slice s 0 max else s

-- `{:<n}`
abbrev pub spaces : ℕ → String
spaces zero = ""
spaces (suc n) = " " <> spaces n

abbrev pub pad : ℕ → String → String
pad n s = s <> spaces (n - count s)

-- what a command prints, and what it says on standard error if it then exits with 1
pub record Outcome : Type 0 where
  pub printed : List String
  pub failure : Option String

abbrev pub prints : List String → Outcome
prints ls = record { printed = ls; failure = none }

abbrev pub tool_info : Option DashActiveTool → String
tool_info none = ""
tool_info (some t) = " [" <> (t.name <> (":" <> (truncate t.detail 40 <> "]")))

abbrev pub sub_info : ℕ → String
sub_info n = if ltb 0 n then " (+" <> (show n <> " subagents)") else ""

unfoldable pub status_line : DashSession → String
status_line s =
    pad 12 (truncate s.project_name 12)
    <> (" "
        <> (pad 10 s.branch
            <> (" "
                <> (pad 10 s.status
                    <> (" "
                        <> (truncate s.session_id 8
                            <> (tool_info s.active_tool <> sub_info s.subagent_count)))))))

abbrev pub session_line : SessionListEntry → String
session_line s = truncate s.session_id 8 <> (if s.main then " (main)" else "")

-- the commands, as `main` takes them from the command line
pub data Command : Type 0 where
  status : Command
  read_messages : (session_id format : String) (limit : Option ℕ) → Command
  sessions : (project : String) → Command
  watch : (session_id format : String) → Command
  watch_events : Command
  inject : (session_id text : String) → Command
  approve approve_similar deny : (request_id : String) → Command

-- every line as it comes
unfoldable pub echo : List (Option String) → List String
echo [] = []
echo (none ∷ lines) = []
echo (some line ∷ lines) = line ∷ echo lines

abbrev pub sent_line : (decision request_id : String) → Outcome
sent_line decision rid = prints (("Sent " <> (decision <> (" for " <> rid))) ∷ [])

module _ {V : Type 0} where
  abbrev pub block_lines : ContentBlock V → List String
  block_lines (text t) = t ∷ []
  block_lines (tool_use name detail input) = ("> " <> (name <> (": " <> detail))) ∷ []
  block_lines (tool_result name none) = []
  block_lines (tool_result name (some out)) = ("> result: " <> truncate out 200) ∷ []

  unfoldable pub blocks_lines : List (ContentBlock V) → List String
  blocks_lines [] = []
  blocks_lines (b ∷ bs) = block_lines b ++ blocks_lines bs

  abbrev pub content_lines : ChatContent V → List String
  content_lines (structured blocks) = blocks_lines blocks
  content_lines (rendered t) = t ∷ []

  unfoldable pub message_lines : List (ChatMessage V) → List String
  message_lines [] = []
  message_lines (m ∷ ms) =
      (("--- " <> (m.role <> " ---")) ∷ content_lines m.content) ++ message_lines ms

  abbrev pub verdict : (request_id decision : String) → ClientRequest V
  verdict rid decision = ClientRequest.permission_response rid "" decision none

  -- the request that a command sends
  unfoldable pub request_for : Command → ClientRequest V
  request_for status = ClientRequest.get_state false
  request_for (read_messages sid format limit) =
      ClientRequest.get_messages sid (some format) (some (unwrap_or limit 20))
  request_for (sessions project) = ClientRequest.list_sessions project
  request_for (watch sid format) = ClientRequest.watch_session sid (some format)
  request_for watch_events = ClientRequest.subscribe
  request_for (inject sid prompt) = ClientRequest.send_prompt sid prompt []
  request_for (approve rid) = verdict rid "allow"
  request_for (approve_similar rid) = verdict rid "allow_similar"
  request_for (deny rid) = verdict rid "deny"

  -- The events at which a command ends, and what it then prints. Others are passed over.
  unfoldable pub ending : Command → ServerEvent V → Option Outcome
  ending status (state_update []) = some (prints ("No active sessions." ∷ []))
  ending status (state_update (s ∷ ss)) = some (prints (map status_line (s ∷ ss)))
  ending (read_messages _ _ _) (messages _ []) = some (prints ("No messages found." ∷ []))
  ending (read_messages _ _ _) (messages _ (m ∷ ms)) = some (prints (message_lines (m ∷ ms)))
  ending (sessions _) (session_list project []) =
      some (prints (("No sessions found for project '" <> (project <> "'.")) ∷ []))
  ending (sessions _) (session_list _ (s ∷ ss)) = some (prints (map session_line (s ∷ ss)))
  ending (inject _ _) (prompt_sent sid) = some (prints (("Prompt sent to " <> truncate sid 8) ∷ []))
  ending (inject _ _) (error message) =
      some (record { printed = []; failure = some ("Error: " <> message) })
  ending _ _ = none

  -- the loop over the lines that are read
  unfoldable pub await :
      (String → Option (ServerEvent V)) → Command → List (Option String) → Outcome
  await decode command [] = prints []
  await decode command (none ∷ lines) = prints []
  await decode command (some line ∷ lines) =
      let later = await decode command lines in
      elim (and_then (decode line) (ending command)) [ none ↦ later | some outcome ↦ outcome ]

  unfoldable pub run_command :
      (String → Option (ServerEvent V)) → Command → List (Option String) → Outcome
  run_command decode (watch _ _) lines = prints (echo lines)
  run_command decode watch_events lines = prints (echo lines)
  run_command decode (approve rid) lines = sent_line "allow" rid
  run_command decode (approve_similar rid) lines = sent_line "allow_similar" rid
  run_command decode (deny rid) lines = sent_line "deny" rid
  run_command decode command lines = await decode command lines
