-- ===== src/Daemon.antt =====
-- crates/agent-dash/src/daemon.rs: the state of the main loop, what it sends, and the environment of
-- one turn of the loop. The handlers are in the modules below. `V` is the type of
-- `serde_json::Value`, `P` that of `vt100::Parser`; senders of tokio channels are numbers.
pub mod Resolve
pub mod Disk
pub mod Hook
pub mod Requests
pub mod Wrappers
pub mod Transcripts
pub mod Terminals
pub mod Loop
pub mod Calm
pub mod Decisions
pub mod Tests
use agent_dash.Prelude.{
  ℕ, ◌+◌, String, Bool, true, false, Option, none, some, List, [], ◌∷◌, if◌then◌else◌, map_option,
}
use Prim.Native.String.{◌++◌}
use agent_dash.Table.{Table, lookup, remove}
use agent_dash.Session.{DashSession}
use agent_dash.Protocol.{ServerEvent, state_update, HookPermissionDecision}
use agent_dash.Messages.Json.{Json}
use agent_dash.Messages.Files.{Files}
use agent_dash.Jsonl.{JournalEntry}
use agent_dash.State.{DaemonState}
use agent_dash.State.View.{to_dash_sessions}
use agent_dash.Watcher.{SessionWatcher}

-- What a turn sends. A `try_send` comes with its result.
pub data Output (V : Type 0) : Type 0 where
  line : (tx : ℕ) (text : String) (delivered : Bool) → Output V
  event : (tx : ℕ) (event : ServerEvent V) (delivered : Bool) → Output V
  decided : (waiter : ℕ) (decision : HookPermissionDecision V) → Output V
  replied : (reply : ℕ) (text : String) → Output V
  written : (sessions : List DashSession) → Output V
  saved : (path : String) (bytes : List ℕ) → Output V

-- an entry of the directory of all projects
pub record ProjectEntry : Type 0 where
  pub name : String
  pub is_dir : Bool

-- a file of the directory of a project
pub record DirEntry : Type 0 where
  pub path : String
  pub file_stem : String
  pub is_jsonl : Bool
  pub modified : Option ℕ

-- The world around one turn: the clock, `serde_json`, the results of sending (by the number of the
-- attempt), the file system, base64, the terminal parser and the markdown renderer.
pub record Env (V P : Type 0) : Type 0 where
  pub now : ℕ
  pub to_string : ServerEvent V → Option String
  pub accepts : ℕ → Bool
  pub is_closed : ℕ → Bool
  pub can_watch : String → Bool
  pub json : Json V
  pub markdown_to_html : String → String
  pub files : Files
  pub create_image_dir : Bool
  pub write_file : String → Bool
  pub save_error : String
  pub decode : String → Option (List ℕ)
  pub new_parser : P
  pub process : List ℕ → P → P
  pub snapshot : P → Option String
  pub new_session_id : String
  pub spawn : List String → Option String
  pub projects : Option (List ProjectEntry)
  pub read_project_dir : String → Option (List DirEntry)
  pub journal_entry : String → Option (JournalEntry V)

-- the variables of `run`, with the number of `try_send`s so far and the outputs, newest first
pub record Daemon (V P : Type 0) : Type 0 where
  pub state : DaemonState V
  pub subscribers : List ℕ
  pub permission_waiters : Table ℕ
  pub session_watcher : SessionWatcher
  pub message_subscribers : Table (List (String × ℕ))
  pub wrapper_channels : Table ℕ
  pub terminal_subscribers : Table (List ℕ)
  pub terminal_parsers : Table P
  pub state_dirty : Bool
  pub attempts : ℕ
  pub outputs : List (Output V)

-- protocol.rs, `encode_line`: the JSON text and a newline
abbrev pub encode_line :
    {V : Type 0} → (ServerEvent V → Option String) → ServerEvent V → Option String
encode_line to_string e = map_option (λ s. s ++ "\n") (to_string e)

-- `encode_line(…).unwrap_or_default()`
abbrev pub or_default : Option String → String
or_default none = ""
or_default (some s) = s

module _ {V P : Type 0} where
  abbrev pub emit : Output V → Daemon V P → Daemon V P
  emit o d = record d { outputs = o ∷ d.outputs }

  abbrev pub with_state : (DaemonState V → DaemonState V) → Daemon V P → Daemon V P
  with_state f d = record d { state = f d.state }

  abbrev pub dirty : Daemon V P → Daemon V P
  dirty d = record d { state_dirty = true }

  -- one tick of the timer that writes the state file
  unfoldable pub write_tick : Daemon V P → Daemon V P
  write_tick d =
      if d.state_dirty
      then record (emit (written (to_dash_sessions d.state)) d) { state_dirty = false }
      else d

  -- `if let Some(waiter) = permission_waiters.remove(..) { waiter.send(..) }`
  unfoldable pub answer : HookPermissionDecision V → String → Daemon V P → Daemon V P
  answer decision rid d = elim (lookup rid d.permission_waiters) [
    | none ↦ d
    | some waiter ↦
        emit (decided waiter decision)
          (record d { permission_waiters = remove rid d.permission_waiters })
  ]

module _ {V P : Type 0} (env : Env V P) where
  -- one `try_send`
  abbrev pub delivered : Daemon V P → Bool
  delivered d = env.accepts d.attempts

  abbrev pub attempt : (Bool → Output V) → Daemon V P → Daemon V P
  attempt o d = record d {
    attempts = d.attempts + 1;
    outputs = o (env.accepts d.attempts) ∷ d.outputs;
  }

  -- `if let Ok(line) = encode_line(..) { tx.try_send(line) }`
  unfoldable pub send_line : ℕ → ServerEvent V → Daemon V P → Daemon V P
  send_line tx e d = elim (encode_line env.to_string e) [
    | none ↦ d
    | some text ↦ attempt (line tx text) d
  ]

  -- `retain(|tx| tx.try_send(line.clone()).is_ok())`: who is kept, and what was sent
  unfoldable pub try_each : String → List ℕ → Daemon V P → List ℕ × Daemon V P
  try_each text [] d = ([], d)
  try_each text (tx ∷ txs) d =
      let (kept, d') = try_each text txs (attempt (line tx text) d) in
      ((if delivered d then tx ∷ kept else kept), d')

  unfoldable pub broadcast_to_subscribers : ServerEvent V → Daemon V P → Daemon V P
  broadcast_to_subscribers e d = elim (encode_line env.to_string e) [
    | none ↦ d
    | some text ↦ let (kept, d') = try_each text d.subscribers d in record d' { subscribers = kept }
  ]

  unfoldable pub broadcast_state : Daemon V P → Daemon V P
  broadcast_state d = broadcast_to_subscribers (state_update (to_dash_sessions d.state)) d
