-- ===== src/State/Tests.antt =====
-- Runs of the methods of `DaemonState` on concrete states, after the tests of state.rs, and the
-- theorems at such states.
use agent_dash.Prelude.{
  ℕ, String, ◌≡◌, ◌≢◌, refl, Bool, true, false, none, some, List, [], ◌∷◌, arith, eq_iff, map,
  is_some,
}
use mathlib.Core.List.{Perm}
use agent_dash.Table.{Table, IsUnique, lookup, insert, remove}
use mathlib.Core.Quot
use agent_dash.Table.Reordered.{swap}
use agent_dash.Table.HashMap.{of_table}
use agent_dash.Session.{DashSession, needs_input, idle, working, as_str}
use agent_dash.Protocol.{tool_start, tool_end, stop, session_start, HookEvent}
use agent_dash.State.{
  DaemonState, InternalSession, PendingPermission, fresh_session, new, session_at,
  add_permission_request, resolve_permission, remove_wrapper,
}
use agent_dash.State.Hooks.{activity, apply_all, activity-apply_all}
use agent_dash.State.Permissions.{
  waiting, request, resolve_permission_pending, add_permission_request_lem, resolve_hides_sibling,
}
use agent_dash.State.Invariant.{IsConsistent, Call, ensure, hook, add, resolve, unwrap}
use agent_dash.State.Wrappers.{remove_wrapper_lem}
use agent_dash.State.View.{
  build_dash_sessions, sort_sessions, place, input_reason, dash_session, subagent_counts, count_one,
  to_dash_sessions,
}
use agent_dash.State.View.Order.{IsSorted}
use agent_dash.State.View.Unordered.{with_sessions}
use agent_dash.State.View.SameMap.{build_dash_sessions_same_map}
use agent_dash.State.View.Listing.{entry, build_dash_sessions_lem}

abbrev wrapper : InternalSession
wrapper = record (fresh_session 0 "w") { is_main = true; status = needs_input }

abbrev child : String → InternalSession
child id = record (fresh_session 0 id) { parent_wrapper_id = some "w"; status = needs_input }

abbrev asked : String → String → PendingPermission ℕ
asked sid rid = request sid rid "Bash" "ls" []

-- a wrapper whose two subagents both wait for an answer
abbrev two_children : DaemonState ℕ
two_children = record {
  sessions = ("w", wrapper) ∷ ("a", child "a") ∷ ("b", child "b") ∷ [];
  pending_permissions = ("p", asked "a" "p") ∷ ("q", asked "b" "q") ∷ [];
}

two_children-IsConsistent : IsConsistent two_children
unfolding lookup
two_children-IsConsistent = record {
  unique_sessions = (refl, (refl, (refl, tt)));
  unique_pending = (refl, (refl, tt));
  own_id = λ k s e. ground (arith, eq_iff "w" k, eq_iff "a" k, eq_iff "b" k);
  own_request = λ k p e. ground (arith, eq_iff "p" k, eq_iff "q" k);
}

p_not_q : ◌≢◌ {A = String} "p" "q"
p_not_q = ground (arith, eq_iff "p" "q")

resolve_permission_pending_example :
    ((resolve_permission 5 "p" two_children).0 ≡ some (asked "a" "p"))
    × (lookup "w" (resolve_permission 5 "p" two_children).1.pending_permissions ≡ none)
    × (session_at "w" (resolve_permission 5 "p" two_children).1
        ≡ some (record wrapper { status = idle; last_status_change = 5 }))
unfolding lookup remove
resolve_permission_pending_example =
    resolve_permission_pending 5 "p" "w" (asked "a" "p") two_children refl

add_permission_request_lem_example :
    (lookup "r" (add_permission_request 5 "a" "r" "Edit" "x" [] two_children).pending_permissions
      ≡ some (request "a" "r" "Edit" "x" []))
    × (waiting "r" (add_permission_request 5 "a" "r" "Edit" "x" [] two_children) ≡ false)
unfolding lookup
add_permission_request_lem_example =
    add_permission_request_lem 5 "a" "r" "Edit" "x" "r" [] two_children

-- The wrapper is shown as idle while the request "q" of its other subagent is pending.
resolve_hides_sibling_example :
    (lookup "q" (resolve_permission 5 "p" two_children).1.pending_permissions
      ≡ some (asked "b" "q"))
    × (waiting "w" (resolve_permission 5 "p" two_children).1 ≡ false)
unfolding lookup remove
resolve_hides_sibling_example =
    resolve_hides_sibling 5 "p" "q" "w" (asked "a" "p") (asked "b" "q") two_children refl refl
      p_not_q refl refl refl

abbrev history : List (ℕ × HookEvent)
history =
    (1, session_start "a" none)
    ∷ (2, tool_start "a" "Bash" "ls" "t1")
    ∷ (3, tool_start "b" "Read" "x" "t2")
    ∷ (4, tool_end "a" "t2")
    ∷ (5, stop "b")
    ∷ []

activity-apply_all_example :
    activity "a" (apply_all {V = ℕ} history new)
    ≡ some (record { status = working; tool = some ("Bash", "ls", "t1") })
unfolding lookup
activity-apply_all_example = activity-apply_all history "a" new

abbrev calls : List (ℕ × Call ℕ)
calls =
    (1, ensure "w")
    ∷ (2, hook (session_start "a" none))
    ∷ (3, add "a" "p" "Bash" "ls" [])
    ∷ (4, resolve "p")
    ∷ (5, unwrap "w")
    ∷ []

remove_wrapper_lem_example :
    (session_at "a" (remove_wrapper "w" two_children) ≡ none)
    × (lookup "a" (remove_wrapper "w" two_children).pending_permissions ≡ none)
unfolding lookup
remove_wrapper_lem_example = remove_wrapper_lem "w" "a" two_children two_children-IsConsistent

build_dash_sessions_lem_example :
    IsSorted (build_dash_sessions false two_children)
    × Perm (build_dash_sessions false two_children) (entry two_children wrapper ∷ [])
build_dash_sessions_lem_example = build_dash_sessions_lem two_children false

abbrev listed : String → String → DashSession
listed id status = record {
  session_id = id;
  project_name = "";
  branch = "";
  status = status;
  last_status_change = 0;
  jsonl_path = none;
  input_reason = none;
  active_tool = none;
  subagent_count = 0;
  prompt_suggestion = none;
  thinking_text = none;
}

-- after `to_dash_sessions_counts_subagents` and `permission_on_child_shows_on_wrapper`
shown_wrapper :
    map {B = String × ℕ × Bool}
      (λ d. (d.session_id, d.subagent_count, is_some d.input_reason))
      (to_dash_sessions two_children)
    ≡ ("w", 2, true) ∷ []
unfolding to_dash_sessions build_dash_sessions sort_sessions place dash_session input_reason
    subagent_counts count_one lookup insert as_str
shown_wrapper = refl

abbrev in_order : Table InternalSession
in_order = ("a", child "a") ∷ ("w", wrapper) ∷ ("b", child "b") ∷ []

in_order-IsUnique : IsUnique in_order
unfolding lookup
in_order-IsUnique = (refl, (refl, (refl, tt)))

two_children-IsUnique : IsUnique two_children.sessions
unfolding lookup
two_children-IsUnique = (refl, (refl, (refl, tt)))

abbrev turned_round :
    of_table in_order in_order-IsUnique ≡ of_table two_children.sessions two_children-IsUnique
turned_round = Quot.sound (swap ("a", child "a") ("w", wrapper) (("b", child "b") ∷ []) refl)

build_dash_sessions_same_map_example :
    build_dash_sessions true (with_sessions two_children in_order)
    ≡ build_dash_sessions true two_children
build_dash_sessions_same_map_example =
    build_dash_sessions_same_map two_children true in_order two_children.sessions in_order-IsUnique
      two_children-IsUnique turned_round (refl, (refl, (refl, tt)))
