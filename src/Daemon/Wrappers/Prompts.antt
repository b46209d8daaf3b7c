-- ===== src/Daemon/Wrappers/Prompts.antt =====
-- What becomes of a prompt.
use agent_dash.Prelude.{
  ℕ, String, true, false, ◌≡◌, refl, ◌∙◌, ap, none, some, List, [], Option-cases, inl, inr, if_true,
  if_false, ◌∷◌, eq_refl,
}
use agent_dash.Table.Laws.{update-absent}
use agent_dash.Session.{working}
use agent_dash.Protocol.{inject_prompt, prompt_sent, state_update}
use agent_dash.State.View.{to_dash_sessions}
use agent_dash.State.{InternalSession, session_at, set_status, change_status}
use agent_dash.State.Effects.{session_at-set_status}
use agent_dash.Daemon.{
  Daemon, Env, event, line, attempt, delivered, with_state, broadcast_state,
  broadcast_to_subscribers, try_each, write_tick, encode_line,
}
use agent_dash.Daemon.Resolve.{find_wrapper_tx}
use agent_dash.Daemon.Wrappers.{is_subagent, inject, handle_send_prompt}
use agent_dash.Daemon.Calm.{broadcast_state-IsQuiet}

module _ {V P : Type 0} (env : Env V P) where
  dirty-try_each :
      (text : String) (txs : List ℕ) (d : Daemon V P)
      → (try_each env text txs d).1.state_dirty ≡ d.state_dirty
  unfolding try_each
  dirty-try_each text [] d = refl
  dirty-try_each text (tx ∷ txs) d = dirty-try_each text txs (attempt env (line tx text) d)

  dirty-broadcast_state : (d : Daemon V P) → (broadcast_state env d).state_dirty ≡ d.state_dirty
  unfolding broadcast_state broadcast_to_subscribers
  dirty-broadcast_state d =
      elim (Option-cases (encode_line env.to_string (state_update (to_dash_sessions d.state)))) [
        | inl failed ↦ rw (failed, broadcast_state, broadcast_to_subscribers) refl
        | inr (text, made) ↦
            rw (made, broadcast_state, broadcast_to_subscribers)
              (dirty-try_each text d.subscribers d)
      ]

  -- the daemon after a prompt that the wrapper has taken, before the answer
  abbrev taken : (sid text : String) → ℕ → Daemon V P → Daemon V P
  taken sid text tx d =
      broadcast_state env (
        with_state (set_status env.now sid working) (attempt env (event tx (inject_prompt text)) d))

  inject-taken :
      (sid text : String) (tx : ℕ) (d : Daemon V P)
      → is_subagent sid d.state ≡ false
      → find_wrapper_tx sid d.wrapper_channels ≡ some tx
      → delivered env d ≡ true
      → inject env sid text d ≡ (prompt_sent sid, taken sid text tx d)
  unfolding inject
  inject-taken sid text tx d main wrapped accepted =
      rw (main, inject, wrapped) (if_true _ _ accepted)

  -- A prompt for a tracked session that its wrapper takes marks the session as working, but does not
  -- mark the state as changed: if it was saved before, the next tick of the timer writes nothing.
  pub prompt_not_saved :
      (sid text : String) (tx reply : ℕ) (s : InternalSession) (d : Daemon V P)
      → session_at sid d.state ≡ some s
      → is_subagent sid d.state ≡ false
      → find_wrapper_tx sid d.wrapper_channels ≡ some tx
      → delivered env d ≡ true
      → d.state_dirty ≡ false
      → (session_at sid (handle_send_prompt env sid text [] reply d).state
          ≡ some (change_status env.now working s))
        × (write_tick (handle_send_prompt env sid text [] reply d)
            ≡ handle_send_prompt env sid text [] reply d)
  unfolding handle_send_prompt write_tick
  prompt_not_saved sid text tx reply s d tracked main wrapped accepted saved =
      rw (inject-taken sid text tx d main wrapped accepted, handle_send_prompt)
        (
          ap (session_at sid) (broadcast_state-IsQuiet env _).state
              ∙ session_at-set_status env.now sid sid working d.state
              ∙ rw (eq_refl sid, tracked) refl,
          if_false _ _ (dirty-broadcast_state _ ∙ saved),
        )

  -- A prompt for the beginning of a session's id that a wrapper's channel is found by is sent and
  -- confirmed, but no session is marked as working.
  pub abbreviated_prompt_marks_none :
      (sid text : String) (tx reply : ℕ) (d : Daemon V P)
      → session_at sid d.state ≡ none
      → is_subagent sid d.state ≡ false
      → find_wrapper_tx sid d.wrapper_channels ≡ some tx
      → delivered env d ≡ true
      → ((inject env sid text d).0 ≡ prompt_sent sid)
        × ((handle_send_prompt env sid text [] reply d).state ≡ d.state)
  unfolding handle_send_prompt set_status
  abbreviated_prompt_marks_none sid text tx reply d unknown main wrapped accepted =
      let sent = inject-taken sid text tx d main wrapped accepted in
      (
        ap (λ result. result.0) sent,
        rw (sent, handle_send_prompt)
            ((broadcast_state-IsQuiet env _).state
              ∙ ap (λ m. record d.state { sessions = m })
                  (update-absent sid (change_status env.now working) d.state.sessions unknown)),
      )
