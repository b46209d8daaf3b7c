-- ===== src/Daemon/Transcripts.antt =====
-- crates/agent-dash/src/daemon.rs: the handlers that read transcripts, and of changes of them.
pub mod Unwatched
use agent_dash.Prelude.{
  ℕ, String, Bool, false, Option, none, some, List, [], ◌∷◌, ◌++◌, ◌==◌, if◌then◌else◌, and_then,
  map_option, unwrap_or, is_empty, filter, find, map, ltb, not,
}
use agent_dash.Paths.{cwd_to_project_slug}
use agent_dash.Table.{Table, lookup, insert, remove, retain, values}
use agent_dash.Protocol.{messages, message, session_list, ChatMessage, SessionListEntry}
use agent_dash.Jsonl.{parse_jsonl_status}
use agent_dash.Messages.Files.{read_messages, read_new_messages}
use agent_dash.State.{DaemonState, InternalSession, session_at, on_session}
use agent_dash.Daemon.{
  Daemon, Env, DirEntry, line, replied, encode_line, or_default, emit, with_state, attempt,
}
use agent_dash.Daemon.Disk.{find_jsonl_on_disk}
use agent_dash.Daemon.Resolve.{resolve_session_key, resolve_jsonl_path}
use agent_dash.Watcher.{watch, unwatch}

abbrev pub set_offset : Option ℕ → InternalSession → InternalSession
set_offset offset s = record s { watch_offset = offset }

-- `entry(k).or_default().push(x)`
abbrev pub push_to {ℓ} : {A : Type ℓ} → String → A → Table (List A) → Table (List A)
push_to k x m = insert k (unwrap_or (lookup k m) [] ++ x ∷ []) m

-- the senders of each format
unfoldable pub group_formats : Table (List ℕ) → List (String × ℕ) → Table (List ℕ)
group_formats groups [] = groups
group_formats groups ((fmt, tx) ∷ subs) = group_formats (push_to fmt tx groups) subs

-- `resolve_session_key(..).unwrap_or(session_id)`
abbrev pub canonical : {V : Type 0} → String → DaemonState V → String
canonical sid st = unwrap_or (resolve_session_key sid st) sid

-- `sort_by(|a, b| b.modified.cmp(&a.modified))`, a stable insertion sort
unfoldable pub place_entry : SessionListEntry → List SessionListEntry → List SessionListEntry
place_entry e [] = e ∷ []
place_entry e (f ∷ fs) = if ltb e.modified f.modified then f ∷ place_entry e fs else e ∷ f ∷ fs

unfoldable pub newest_first : List SessionListEntry → List SessionListEntry
newest_first [] = []
newest_first (e ∷ es) = place_entry e (newest_first es)

-- `sessions.values().find(|s| s.project_name == project)`
abbrev pub project_session : {V : Type 0} → String → DaemonState V → Option InternalSession
project_session project st = find (λ s. s.project_name == project) (values st.sessions)

abbrev pub slug_of : {V : Type 0} → String → DaemonState V → String
slug_of project st =
    unwrap_or (map_option cwd_to_project_slug (and_then (project_session project st) (λ s. s.cwd)))
      (cwd_to_project_slug project)

abbrev pub is_path : Option String → String → Bool
is_path none path = false
is_path (some p) path = p == path

module _ {V P : Type 0} (env : Env V P) where
  -- the loop over the files of a project's directory
  unfoldable pub list_entries : Option String → List DirEntry → List SessionListEntry
  list_entries main_jsonl [] = []
  list_entries main_jsonl (file ∷ files) =
      let rest = list_entries main_jsonl files in
      if file.is_jsonl
      then elim (parse_jsonl_status env.json env.journal_entry env.files file.path) [
        | none ↦ rest
        | some status ↦
            record {
              session_id = status.session_id;
              main = is_path main_jsonl file.path;
              modified = unwrap_or file.modified 0;
            }
            ∷ rest
      ]
      else rest

  -- `ListSessions`
  unfoldable pub handle_list_sessions : String → ℕ → Daemon V P → Daemon V P
  handle_list_sessions project reply d =
      let files = unwrap_or (env.read_project_dir (slug_of project d.state)) [] in
      let main_jsonl = and_then (project_session project d.state) (λ s. s.jsonl_path) in
      let entries = newest_first (list_entries main_jsonl files) in
      emit (replied reply (or_default (encode_line env.to_string (session_list project entries)))) d

  -- `GetMessages`
  unfoldable pub handle_get_messages :
      (sid format : String) → (limit reply : ℕ) → Daemon V P → Daemon V P
  handle_get_messages sid format limit reply d =
      let found : List (ChatMessage V) =
        elim (resolve_jsonl_path (find_jsonl_on_disk env) sid d.state) [
          | none ↦ []
          | some path ↦ read_messages env.json env.markdown_to_html env.files path limit format
        ] in
      emit (replied reply (or_default (encode_line env.to_string (messages sid found)))) d

  -- starts to watch the transcript of a session, where it has one
  unfoldable pub watch_transcript : String → Daemon V P → Daemon V P
  watch_transcript sid d = elim (and_then (session_at sid d.state) (λ s. s.jsonl_path)) [
    | none ↦ d
    | some path ↦
        record (with_state
          (on_session sid (set_offset (some (unwrap_or (env.files.file_len path) 0)))) d) {
            session_watcher = watch (env.can_watch path) sid path d.session_watcher;
          }
  ]

  -- `WatchSession`
  unfoldable pub handle_watch_session : (sid format : String) → ℕ → Daemon V P → Daemon V P
  handle_watch_session sid format tx d =
      let key = canonical sid d.state in
      let d₁ = watch_transcript key d in
      record d₁ { message_subscribers = push_to key (format, tx) d₁.message_subscribers }

  -- one line to each of some senders, whatever comes of it
  unfoldable pub send_to_all : String → List ℕ → Daemon V P → Daemon V P
  send_to_all text [] d = d
  send_to_all text (tx ∷ txs) d = send_to_all text txs (attempt env (line tx text) d)

  unfoldable pub send_messages : String → List ℕ → List (ChatMessage V) → Daemon V P → Daemon V P
  send_messages sid txs [] d = d
  send_messages sid txs (m ∷ ms) d = elim (encode_line env.to_string (message sid m)) [
    | none ↦ send_messages sid txs ms d
    | some text ↦ send_messages sid txs ms (send_to_all text txs d)
  ]

  -- the loop over the formats: what is new since the offset, in each
  unfoldable pub each_format : (sid path : String) → ℕ → Table (List ℕ) → Daemon V P → Daemon V P
  each_format sid path offset [] d = d
  each_format sid path offset ((fmt, txs) ∷ groups) d =
      let (msgs, new_offset) =
        read_new_messages env.json env.markdown_to_html env.files path offset fmt in
      each_format sid path offset groups
        (send_messages sid txs msgs (with_state (on_session sid (set_offset (some new_offset))) d))

  unfoldable pub send_changes : (sid path : String) → List (String × ℕ) → Daemon V P → Daemon V P
  send_changes sid path subs d =
      let offset = unwrap_or (and_then (session_at sid d.state) (λ s. s.watch_offset)) 0 in
      each_format sid path offset (group_formats [] subs) d

  -- forgets the subscribers whose connection is closed, then the sessions that have none
  abbrev pub open_only : Table (List (String × ℕ)) → Table (List (String × ℕ))
  open_only m =
      retain (λ _ subs. not (is_empty subs))
        (map (λ e. (e.0, filter (λ sub. not (env.is_closed sub.1)) e.1)) m)

  -- a change of a watched file
  unfoldable pub handle_file_changed : (sid path : String) → Daemon V P → Daemon V P
  handle_file_changed sid path d =
      let d₁ : Daemon V P = elim (lookup sid d.message_subscribers) [
        | none ↦ d
        | some subs ↦ if is_empty subs then d else send_changes sid path subs d
      ] in
      record d₁ { message_subscribers = open_only d₁.message_subscribers }

module _ {V P : Type 0} where
  -- `UnwatchSession`
  unfoldable pub handle_unwatch_session : String → Daemon V P → Daemon V P
  handle_unwatch_session sid d =
      let key = canonical sid d.state in
      record (with_state (on_session key (set_offset none)) d) {
        message_subscribers = remove key d.message_subscribers;
        session_watcher = unwatch key d.session_watcher;
      }
