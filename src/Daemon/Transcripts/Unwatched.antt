-- ===== src/Daemon/Transcripts/Unwatched.antt =====
-- What a client that unwatches a session does to the others.
use agent_dash.Prelude.{String, none, ◌≡◌, refl, ◌∙◌, eq_refl}
use agent_dash.Table.{lookup, remove}
use agent_dash.Table.Laws.{lookup-remove}
use agent_dash.Daemon.{Daemon, Env}
use agent_dash.Daemon.Transcripts.{canonical, handle_unwatch_session, handle_file_changed}

module _ {V P : Type 0} (env : Env V P) where
  -- When any client has unwatched a session, a change of its transcript is sent to nobody, whoever
  -- else was watching the session.
  pub unwatch_silences_all :
      (sid path : String) (d : Daemon V P)
      → (handle_file_changed env
          (canonical sid d.state)
          path
          (handle_unwatch_session sid d)).outputs
        ≡ d.outputs
  unfolding handle_file_changed handle_unwatch_session
  unwatch_silences_all sid path d =
      let key = canonical sid d.state in
      let gone : lookup key (remove key d.message_subscribers) ≡ none =
        lookup-remove key key d.message_subscribers ∙ rw (eq_refl key) refl in
      rw (gone, handle_file_changed) refl
