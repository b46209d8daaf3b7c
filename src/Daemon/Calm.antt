-- ===== src/Daemon/Calm.antt =====
-- What most turns leave alone: the permission requests, who waits for them, and what was decided.
pub mod Wrapping
pub mod Reading
use agent_dash.Prelude.{
  ℕ, String, ◌≡◌, refl, ◌∙◌, sym, ap, subst, Bool, Option, none, some, List, [], ◌∷◌, arith,
  Option-cases, Bool-cases, inl, inr, is_empty, if◌then◌else◌, is_none,
}
use agent_dash.Table.{Table, lookup, values}
use agent_dash.Protocol.{ServerEvent, HookPermissionDecision, ChatMessage, state_update}
use agent_dash.State.{DaemonState, InternalSession, PendingPermission, on_session, ensure_session}
use agent_dash.State.View.{to_dash_sessions}
use agent_dash.State.Invariant.{
  IsConsistent, on_session-IsConsistent, ensure_session-IsConsistent, set_status-IsConsistent,
}
use agent_dash.Daemon.{
  Daemon, Env, Output, line, event, decided, replied, written, saved, encode_line, emit, with_state,
  attempt, send_line, try_each, broadcast_to_subscribers, broadcast_state,
}

-- the decisions among the outputs, newest first
unfoldable pub decisions : {V : Type 0} → List (Output V) → List (ℕ × HookPermissionDecision V)
decisions [] = []
decisions (decided waiter decision ∷ os) = (waiter, decision) ∷ decisions os
decisions (line tx text delivered ∷ os) = decisions os
decisions (event tx e delivered ∷ os) = decisions os
decisions (replied reply text ∷ os) = decisions os
decisions (written sessions ∷ os) = decisions os
decisions (saved path bytes ∷ os) = decisions os

module _ {V P : Type 0} where
  pub record IsCalm (d d' : Daemon V P) : Type 0 where
    pub pending : d'.state.pending_permissions ≡ d.state.pending_permissions
    pub waiters : d'.permission_waiters ≡ d.permission_waiters
    pub decided : decisions d'.outputs ≡ decisions d.outputs
    pub consistent : IsConsistent d.state → IsConsistent d'.state

  -- As before, with the state untouched.
  pub record IsQuiet (d d' : Daemon V P) : Type 0 where
    pub state : d'.state ≡ d.state
    pub waiters : d'.permission_waiters ≡ d.permission_waiters
    pub decided : decisions d'.outputs ≡ decisions d.outputs

  pub IsQuiet-refl : (d : Daemon V P) → IsQuiet d d
  IsQuiet-refl d = record { state = refl; waiters = refl; decided = refl }

  pub IsQuiet-trans : {a b c : Daemon V P} → IsQuiet a b → IsQuiet b c → IsQuiet a c
  IsQuiet-trans h k = record {
    state = k.state ∙ h.state;
    waiters = k.waiters ∙ h.waiters;
    decided = k.decided ∙ h.decided;
  }

  pub IsCalm-refl : (d : Daemon V P) → IsCalm d d
  IsCalm-refl d = record { pending = refl; waiters = refl; decided = refl; consistent = λ c. c }

  pub IsCalm-trans : {a b c : Daemon V P} → IsCalm a b → IsCalm b c → IsCalm a c
  IsCalm-trans h k = record {
    pending = k.pending ∙ h.pending;
    waiters = k.waiters ∙ h.waiters;
    decided = k.decided ∙ h.decided;
    consistent = λ c. k.consistent (h.consistent c);
  }

  pub IsCalm-of_quiet : {d d' : Daemon V P} → IsQuiet d d' → IsCalm d d'
  IsCalm-of_quiet {d} {d'} h = record {
    pending = ap (λ st. st.pending_permissions) h.state;
    waiters = h.waiters;
    decided = h.decided;
    consistent = λ c. subst IsConsistent (sym h.state) c;
  }

  pub IsCalm-of_session :
      (k : String) (f : InternalSession → InternalSession) (d : Daemon V P)
      → ((s : InternalSession) → (f s).session_id ≡ s.session_id)
      → IsCalm d (with_state (on_session k f) d)
  IsCalm-of_session k f d keeps = record {
    pending = refl;
    waiters = refl;
    decided = refl;
    consistent = λ c. on_session-IsConsistent k f d.state keeps c;
  }

module _ {V P : Type 0} (env : Env V P) where
  pub try_each-IsQuiet :
      (text : String) (txs : List ℕ) (d : Daemon V P) → IsQuiet d (try_each env text txs d).1
  unfolding try_each decisions
  try_each-IsQuiet text [] d = IsQuiet-refl d
  try_each-IsQuiet text (tx ∷ txs) d =
      let rest = try_each-IsQuiet text txs (attempt env (line tx text) d) in
      record { state = rest.state; waiters = rest.waiters; decided = rest.decided }

  pub send_line-IsQuiet :
      (tx : ℕ) (e : ServerEvent V) (d : Daemon V P) → IsQuiet d (send_line env tx e d)
  unfolding send_line decisions
  send_line-IsQuiet tx e d = elim (Option-cases (encode_line env.to_string e)) [
    | inl failed ↦ rw (failed, send_line) (IsQuiet-refl d)
    | inr (text, made) ↦
        rw (made, send_line) (record { state = refl; waiters = refl; decided = refl })
  ]

  pub broadcast-IsQuiet :
      (e : ServerEvent V) (d : Daemon V P) → IsQuiet d (broadcast_to_subscribers env e d)
  unfolding broadcast_to_subscribers
  broadcast-IsQuiet e d = elim (Option-cases (encode_line env.to_string e)) [
    | inl failed ↦ rw (failed, broadcast_to_subscribers) (IsQuiet-refl d)
    | inr (text, made) ↦
        let sent = try_each-IsQuiet text d.subscribers d in
        rw (made, broadcast_to_subscribers)
          (record { state = sent.state; waiters = sent.waiters; decided = sent.decided })
  ]

  pub broadcast_state-IsQuiet : (d : Daemon V P) → IsQuiet d (broadcast_state env d)
  unfolding broadcast_state
  broadcast_state-IsQuiet d = broadcast-IsQuiet (state_update (to_dash_sessions d.state)) d
