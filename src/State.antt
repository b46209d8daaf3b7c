-- ===== src/State.antt =====
-- crates/agent-dash/src/state.rs: the sessions and the pending permission requests of the daemon,
-- and each method of `DaemonState` that changes them. The clock is an argument, `now`, read once in
-- each call; `V` is the type of `serde_json::Value`.
pub mod Effects
pub mod Hooks
pub mod Permissions
pub mod Invariant
pub mod Wrappers
pub mod View
mod Tests
use agent_dash.Prelude.{
  ℕ, String, Bool, true, false, Option, none, some, List, [], ◌∷◌, ◌==◌, ◌||◌, if◌then◌else◌,
  and_then, not,
}
use agent_dash.Table.{Table, lookup, contains_key, insert, remove, update, retain, any_entry}
use agent_dash.Session.{SessionStatus, needs_input, working, idle, ended, status_eq}
use agent_dash.Protocol.{HookEvent, tool_start, tool_end, stop, session_start, session_end}

pub record InternalSession : Type 0 where
  pub session_id : String
  pub cwd : Option String
  pub project_name : String
  pub branch : String
  pub status : SessionStatus
  pub active_tool : Option (String × String × String)
  pub jsonl_path : Option String
  pub last_status_change : ℕ
  pub has_pending_question : Bool
  pub question_text : Option String
  pub watch_offset : Option ℕ
  pub is_main : Bool
  pub parent_wrapper_id : Option String
  pub agent : Option String
  pub prompt_suggestion : Option String
  pub thinking_text : Option String

pub record PendingPermission (V : Type 0) : Type 0 where
  pub request_id : String
  pub session_id : String
  pub tool : String
  pub detail : String
  pub suggestions : List V

pub record DaemonState (V : Type 0) : Type 0 where
  pub sessions : Table InternalSession
  pub pending_permissions : Table (PendingPermission V)

-- the session that `ensure_session` creates
abbrev pub fresh_session : ℕ → String → InternalSession
fresh_session now sid = record {
  session_id = sid;
  cwd = none;
  project_name = "";
  branch = "";
  status = idle;
  active_tool = none;
  jsonl_path = none;
  last_status_change = now;
  has_pending_question = false;
  question_text = none;
  watch_offset = none;
  is_main = false;
  parent_wrapper_id = none;
  agent = none;
  prompt_suggestion = none;
  thinking_text = none;
}

-- the assignments of `set_status` to a session
abbrev pub change_status : ℕ → SessionStatus → InternalSession → InternalSession
change_status now new_status s =
    if status_eq s.status new_status
    then s
    else record s { status = new_status; last_status_change = now }

-- the inner tests of the `ToolEnd` arm
abbrev pub end_tool : String → InternalSession → InternalSession
end_tool tool_use_id s = elim s.active_tool [
  | none ↦ s
  | some (_, _, current_id) ↦
      if current_id == tool_use_id then record s { active_tool = none } else s
]

-- the inner test of the `SessionStart` arm
abbrev pub enter_cwd : Option String → InternalSession → InternalSession
enter_cwd none s = s
enter_cwd (some c) s = record s { cwd = some c }

abbrev pub is_opt_str : Option String → String → Bool
is_opt_str none k = false
is_opt_str (some s) k = s == k

-- the sessions that go with a wrapper: its own, and those that name it as their parent
abbrev pub belongs_to : String → String → InternalSession → Bool
belongs_to wrapper_id id s = id == wrapper_id || is_opt_str s.parent_wrapper_id wrapper_id

unfoldable pub wrapper_sessions : String → Table InternalSession → List String
wrapper_sessions wrapper_id [] = []
wrapper_sessions wrapper_id ((id, s) ∷ m) =
    let rest = wrapper_sessions wrapper_id m in
    if belongs_to wrapper_id id s then id ∷ rest else rest

module _ {V : Type 0} where
  abbrev pub new : DaemonState V
  new = record { sessions = []; pending_permissions = [] }

  -- `sessions.get(k)`
  abbrev pub session_at : String → DaemonState V → Option InternalSession
  session_at k st = lookup k st.sessions

  -- `sessions.get_mut(k)` and a write through it
  abbrev pub on_session :
      String → (InternalSession → InternalSession) → DaemonState V → DaemonState V
  on_session k f st = record st { sessions = update k f st.sessions }

  unfoldable pub ensure_session : ℕ → String → DaemonState V → DaemonState V
  ensure_session now sid st =
      if contains_key sid st.sessions
      then st
      else record st { sessions = insert sid (fresh_session now sid) st.sessions }

  unfoldable pub set_status : ℕ → String → SessionStatus → DaemonState V → DaemonState V
  set_status now sid new_status st = on_session sid (change_status now new_status) st

  unfoldable pub apply_hook_event : ℕ → HookEvent → DaemonState V → DaemonState V
  apply_hook_event now (tool_start sid tool detail tool_use_id) st = set_status now sid working (
      on_session sid (λ s. record s { active_tool = some (tool, detail, tool_use_id) })
        (ensure_session now sid st))
  apply_hook_event now (tool_end sid tool_use_id) st = on_session sid (end_tool tool_use_id) st
  apply_hook_event now (stop sid) st =
      set_status now sid idle (on_session sid (λ s. record s { active_tool = none }) st)
  apply_hook_event now (session_start sid cwd) st =
      on_session sid (enter_cwd cwd) (ensure_session now sid st)
  apply_hook_event now (session_end sid) st = record st {
    sessions = remove sid st.sessions;
    pending_permissions = retain (λ _ perm. not (perm.session_id == sid)) st.pending_permissions;
  }

  -- `sessions.get(k).and_then(|s| s.parent_wrapper_id.clone())`
  abbrev pub parent_of : String → DaemonState V → Option String
  parent_of sid st = and_then (session_at sid st) (λ s. s.parent_wrapper_id)

  -- marks the parent wrapper, the second half of `add_permission_request`
  abbrev pub mark_parent : ℕ → Option String → DaemonState V → DaemonState V
  mark_parent now none st = st
  mark_parent now (some parent_id) st = set_status now parent_id needs_input st

  unfoldable pub add_permission_request :
      ℕ → (sid rid tool detail : String) → List V → DaemonState V → DaemonState V
  add_permission_request now sid rid tool detail suggestions st =
      let perm : PendingPermission V = record {
        request_id = rid;
        session_id = sid;
        tool = tool;
        detail = detail;
        suggestions = suggestions;
      } in
      let st₁ =
        set_status now sid needs_input
          (record st { pending_permissions = insert rid perm st.pending_permissions }) in
      mark_parent now (parent_of sid st₁) st₁

  -- `pending_permissions.values().any(|p| p.session_id == session_id)`
  abbrev pub still_pending : String → DaemonState V → Bool
  still_pending sid st = any_entry (λ _ p. p.session_id == sid) st.pending_permissions

  -- sets a session that needs input back to idle
  unfoldable pub clear_needs_input : ℕ → String → DaemonState V → DaemonState V
  clear_needs_input now sid st = elim (session_at sid st) [
    | none ↦ st
    | some s ↦ if status_eq s.status needs_input then set_status now sid idle st else st
  ]

  abbrev pub clear_parent : ℕ → Option String → DaemonState V → DaemonState V
  clear_parent now none st = st
  clear_parent now (some parent_id) st = clear_needs_input now parent_id st

  -- what `resolve_permission` does once the request is removed
  unfoldable pub settle : ℕ → String → DaemonState V → DaemonState V
  settle now sid st =
      if still_pending sid st
      then st
      else let st₁ = clear_needs_input now sid st in clear_parent now (parent_of sid st₁) st₁

  unfoldable pub resolve_permission :
      ℕ → String → DaemonState V → Option (PendingPermission V) × DaemonState V
  resolve_permission now rid st = elim (lookup rid st.pending_permissions) [
    | none ↦ (none, st)
    | some perm ↦ (
      some perm,
      settle now perm.session_id
          (record st { pending_permissions = remove rid st.pending_permissions }),
    )
  ]

  unfoldable pub remove_sessions : List String → DaemonState V → DaemonState V
  remove_sessions [] st = st
  remove_sessions (id ∷ ids) st = remove_sessions ids (record {
    sessions = remove id st.sessions;
    pending_permissions = retain (λ _ perm. not (perm.session_id == id)) st.pending_permissions;
  })

  unfoldable pub remove_wrapper : String → DaemonState V → DaemonState V
  remove_wrapper wrapper_id st = remove_sessions (wrapper_sessions wrapper_id st.sessions) st
