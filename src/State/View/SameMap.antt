-- ===== src/State/View/SameMap.antt =====
-- The list that clients are shown, as a function of the session map and not of its table.
use text.Mathlib.TextEquality.{IsScalar-prop}
use agent_dash.Prelude.{Bool, ◌≡◌}
use agent_dash.Table.{Table, IsUnique}
use agent_dash.Table.HashMap.{of_table, exact}
use agent_dash.State.{DaemonState, InternalSession}
use agent_dash.State.View.{build_dash_sessions}
use agent_dash.State.View.Unordered.{OwnIds, with_sessions, build_dash_sessions-Reordered}

session_set : IsSet InternalSession
session_set = hlevel IsScalar-prop

module _ {V : Type 0} (st : DaemonState V) where
  -- If the tables of two states are the same `HashMap` of sessions, the rest of the states is the
  -- same, and every session stands under its own id, then clients are shown the same list.
  pub build_dash_sessions_same_map :
      (include_subagents : Bool) (m m' : Table InternalSession) (u : IsUnique m) (u' : IsUnique m')
      → of_table m u ≡ of_table m' u'
      → OwnIds m
      → build_dash_sessions include_subagents (with_sessions st m)
        ≡ build_dash_sessions include_subagents (with_sessions st m')
  build_dash_sessions_same_map include_subagents m m' u u' e =
      build_dash_sessions-Reordered st include_subagents (exact session_set m m' u u' e)
