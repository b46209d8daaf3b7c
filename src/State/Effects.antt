-- ===== src/State/Effects.antt =====
-- What each method of `DaemonState` does to the entry of one session, as equations over `lookup`.
use agent_dash.Prelude.{
  ℕ, String, ◌≡◌, Option, none, some, arith, ◌==◌, eq_iff, if◌then◌else◌, map_option,
}
use agent_dash.Table.Laws.{lookup-insert, lookup-update}
use agent_dash.Session.{SessionStatus, needs_input, idle, status_eq}
use agent_dash.State.{
  DaemonState, InternalSession, fresh_session, change_status, session_at, on_session,
  ensure_session, set_status, clear_needs_input,
}

abbrev pub or_fresh : ℕ → String → Option InternalSession → InternalSession
or_fresh now sid none = fresh_session now sid
or_fresh now sid (some s) = s

module _ {V : Type 0} where
  pub session_at-on_session :
      (k j : String) (f : InternalSession → InternalSession) (st : DaemonState V)
      → session_at j (on_session k f st)
        ≡ (if k == j then map_option f (session_at j st) else session_at j st)
  session_at-on_session k j f st = lookup-update k j f st.sessions

  pub session_at-set_status :
      (now : ℕ) (k j : String) (new : SessionStatus) (st : DaemonState V)
      → session_at j (set_status now k new st)
        ≡ (if k == j then map_option (change_status now new) (session_at j st) else session_at j st)
  unfolding set_status
  session_at-set_status now k j new st = lookup-update k j (change_status now new) st.sessions

  pub session_at-ensure_session :
      (now : ℕ) (k j : String) (st : DaemonState V)
      → session_at j (ensure_session now k st)
        ≡ (if k == j then some (or_fresh now k (session_at j st)) else session_at j st)
  unfolding ensure_session
  session_at-ensure_session now k j st =
      ground (arith, lookup-insert k j (fresh_session now k) st.sessions, eq_iff k j)

  pub session_at-clear_needs_input :
      (now : ℕ) (k j : String) (st : DaemonState V)
      → session_at j (clear_needs_input now k st) ≡ (
          if k == j
          then map_option
              (λ s. if status_eq s.status needs_input then change_status now idle s else s)
              (session_at j st)
          else session_at j st)
  unfolding clear_needs_input
  session_at-clear_needs_input now k j st =
      ground (arith, session_at-set_status now k j idle st, eq_iff k j)
