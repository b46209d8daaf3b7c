-- ===== src/State/View.antt =====
-- `to_dash_sessions` and `to_all_dash_sessions` of crates/agent-dash/src/state.rs: what the clients
-- are shown. `sort_by` of the standard library is a stable insertion sort here; `find` over
-- `values()` takes the first entry in the table's order.
pub mod Counts
pub mod Order
pub mod Listing
pub mod Unordered
pub mod SameMap
use Prim.Native.Nat.{Ordering}
use Prim.Native.String.{compare}
use agent_dash.Prelude.{
  ℕ, ◌+◌, String, Bool, true, false, Option, none, some, List, [], ◌∷◌, ◌==◌, ◌||◌, if◌then◌else◌,
  and_then, map_option, unwrap_or, filter, find, map,
}
use agent_dash.Table.{Table, lookup, insert, values}
use agent_dash.Session.{DashSession, DashInputReason, DashActiveTool, as_str, tool_icon}
use agent_dash.State.{DaemonState, InternalSession, PendingPermission, is_opt_str}

-- `*subagent_counts.entry(parent).or_default() += 1`
unfoldable pub count_one : Option String → Table ℕ → Table ℕ
count_one none counts = counts
count_one (some parent) counts = insert parent (unwrap_or (lookup parent counts) 0 + 1) counts

-- the loop that fills `subagent_counts`
unfoldable pub subagent_counts : List InternalSession → Table ℕ → Table ℕ
subagent_counts [] counts = counts
subagent_counts (s ∷ ss) counts = subagent_counts ss (count_one s.parent_wrapper_id counts)

abbrev pub question_reason : Option String → DashInputReason
question_reason text = record {
  reason_type = "question";
  tool = none;
  command = none;
  detail = none;
  text = text;
}

module _ {V : Type 0} where
  abbrev pub permission_reason : PendingPermission V → DashInputReason
  permission_reason p = record {
    reason_type = "permission";
    tool = some p.tool;
    command = none;
    detail = some p.detail;
    text = none;
  }

  -- the test of the `find`: the request is the session's own, or that of a child
  abbrev pub concerns : DaemonState V → String → PendingPermission V → Bool
  concerns st id p =
      p.session_id == id
      || is_opt_str (and_then (lookup p.session_id st.sessions) (λ child. child.parent_wrapper_id))
          id

  unfoldable pub input_reason : DaemonState V → InternalSession → Option DashInputReason
  input_reason st s =
      if s.has_pending_question
      then some (question_reason s.question_text)
      else map_option permission_reason
          (find (concerns st s.session_id) (values st.pending_permissions))

abbrev pub dash_tool : String × String × String → DashActiveTool
dash_tool (name, detail, _) = record { name = name; detail = detail; icon = tool_icon name }

module _ {V : Type 0} where
  unfoldable pub dash_session : DaemonState V → Table ℕ → InternalSession → DashSession
  dash_session st counts s = record {
    session_id = s.session_id;
    project_name = s.project_name;
    branch = s.branch;
    status = as_str s.status;
    last_status_change = s.last_status_change;
    jsonl_path = s.jsonl_path;
    input_reason = input_reason st s;
    active_tool = map_option dash_tool s.active_tool;
    subagent_count = unwrap_or (lookup s.session_id counts) 0;
    prompt_suggestion = s.prompt_suggestion;
    thinking_text = s.thinking_text;
  }

-- `a.status.cmp(&b.status).then(a.session_id.cmp(&b.session_id))`
abbrev pub or_else : Ordering → Ordering → Ordering
or_else Ordering.eq o = o
or_else Ordering.lt o = Ordering.lt
or_else Ordering.gt o = Ordering.gt

unfoldable pub session_cmp : DashSession → DashSession → Ordering
session_cmp a b = or_else (compare a.status b.status) (compare a.session_id b.session_id)

abbrev pub not_after : DashSession → DashSession → Bool
not_after a b = elim (session_cmp a b) [ Ordering.gt ↦ false | _ ↦ true ]

unfoldable pub place : DashSession → List DashSession → List DashSession
place a [] = a ∷ []
place a (b ∷ bs) = if not_after a b then a ∷ b ∷ bs else b ∷ place a bs

unfoldable pub sort_sessions : List DashSession → List DashSession
sort_sessions [] = []
sort_sessions (a ∷ rest) = place a (sort_sessions rest)

module _ {V : Type 0} where
  abbrev pub shown : Bool → DaemonState V → List InternalSession
  shown include_subagents st = filter (λ s. include_subagents || s.is_main) (values st.sessions)

  unfoldable pub build_dash_sessions : Bool → DaemonState V → List DashSession
  build_dash_sessions include_subagents st =
      let counts = subagent_counts (values st.sessions) [] in
      sort_sessions (map (dash_session st counts) (shown include_subagents st))

  unfoldable pub to_dash_sessions : DaemonState V → List DashSession
  to_dash_sessions st = build_dash_sessions false st

  unfoldable pub to_all_dash_sessions : DaemonState V → List DashSession
  to_all_dash_sessions st = build_dash_sessions true st
