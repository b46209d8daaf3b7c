-- ===== src/State/Hooks.antt =====
-- `apply_hook_event` seen as a state machine: the status and the active tool of each session, driven
-- by the events of that session alone.
use agent_dash.Prelude.{
  ℕ, String, ◌≡◌, refl, Option, none, some, List, [], ◌∷◌, arith, ◌==◌, eq_iff, if◌then◌else◌,
  map_option, filter,
}
use agent_dash.Table.Laws.{lookup-remove}
use agent_dash.Session.{SessionStatus, idle, working}
use agent_dash.Protocol.{
  HookEvent, event_session, tool_start, tool_end, stop, session_start, session_end,
}
use agent_dash.State.{
  DaemonState, InternalSession, end_tool, enter_cwd, session_at, on_session, ensure_session,
  apply_hook_event,
}
use agent_dash.State.Effects.{
  session_at-on_session, session_at-set_status, session_at-ensure_session,
}

-- What the dashboard shows of a session's work: `none` for a session that is not tracked.
pub record Activity : Type 0 where
  pub status : SessionStatus
  pub tool : Option (String × String × String)

abbrev pub activity_of : InternalSession → Activity
activity_of s = record { status = s.status; tool = s.active_tool }

abbrev resting : Activity
resting = record { status = idle; tool = none }

-- The tool that is active after the end of the tool call `id`.
abbrev pub finish : String → Option (String × String × String) → Option (String × String × String)
finish id none = none
finish id (some (name, detail, current)) =
    if current == id then none else some (name, detail, current)

-- The state machine that the hooks promise to a client.
abbrev pub move : HookEvent → Option Activity → Option Activity
move (tool_start sid name detail id) a =
    some (record { status = working; tool = some (name, detail, id) })
move (tool_end sid id) none = none
move (tool_end sid id) (some a) = some (record a { tool = finish id a.tool })
move (stop sid) none = none
move (stop sid) (some a) = some resting
move (session_start sid cwd) none = some resting
move (session_start sid cwd) (some a) = some a
move (session_end sid) a = none

module _ {V : Type 0} where
  abbrev pub activity : String → DaemonState V → Option Activity
  activity k st = map_option activity_of (session_at k st)

  -- An event moves the activity of its own session by the state machine, and of no other session.
  pub activity-apply_hook_event :
      (now : ℕ) (e : HookEvent) (j : String) (st : DaemonState V)
      → activity j (apply_hook_event now e st)
        ≡ (if event_session e == j then move e (activity j st) else activity j st)
  unfolding apply_hook_event
  activity-apply_hook_event now (tool_start sid name detail id) j st = ground (
    arith,
    session_at-set_status now sid j working (
        on_session sid (λ s. record s { active_tool = some (name, detail, id) })
          (ensure_session now sid st)),
    session_at-on_session sid j (λ s. record s { active_tool = some (name, detail, id) })
        (ensure_session now sid st),
    session_at-ensure_session now sid j st,
    eq_iff sid j,
  )
  activity-apply_hook_event now (tool_end sid id) j st =
      ground (arith, session_at-on_session sid j (end_tool id) st)
  activity-apply_hook_event now (stop sid) j st = ground (
    arith,
    session_at-set_status now sid j idle (on_session sid (λ s. record s { active_tool = none }) st),
    session_at-on_session sid j (λ s. record s { active_tool = none }) st,
    eq_iff sid j,
  )
  activity-apply_hook_event now (session_start sid cwd) j st = ground (
    arith,
    session_at-on_session sid j (enter_cwd cwd) (ensure_session now sid st),
    session_at-ensure_session now sid j st,
    eq_iff sid j,
  )
  activity-apply_hook_event now (session_end sid) j st =
      ground (arith, lookup-remove sid j st.sessions)

  -- a history of hook events, each with the time at which it is applied
  pub apply_all : List (ℕ × HookEvent) → DaemonState V → DaemonState V
  apply_all [] st = st
  apply_all ((now, e) ∷ es) st = apply_all es (apply_hook_event now e st)

abbrev pub events_of : String → List (ℕ × HookEvent) → List (ℕ × HookEvent)
events_of j = filter λ e. event_session e.1 == j

abbrev pub moves : List (ℕ × HookEvent) → Option Activity → Option Activity
moves [] a = a
moves ((_, e) ∷ es) a = moves es (move e a)

module _ {V : Type 0} where
  -- However the events of the sessions are interleaved, the activity of a session at the end is that
  -- of the state machine run over its own events, from its activity at the start.
  pub activity-apply_all :
      (es : List (ℕ × HookEvent)) (j : String) (st : DaemonState V)
      → activity j (apply_all es st) ≡ moves (events_of j es) (activity j st)
  unfolding apply_all
  activity-apply_all [] j st = refl
  activity-apply_all ((now, e) ∷ es) j st = ground (
    arith,
    activity-apply_all es j (apply_hook_event now e st),
    activity-apply_hook_event now e j st,
  )
