-- ===== src/Listener/Left.antt =====
-- What is left in the daemon of a wrapper whose connection has ended.
use agent_dash.Prelude.{
  ℕ, String, Option, none, some, List, [], ◌∷◌, ◌++◌, ◌≡◌, refl, ap, ◌∙◌, inl, inr, arith,
  Option-cases, eq_refl,
}
use mathlib.Core.List.{append_assoc}
use agent_dash.Table.{lookup}
use agent_dash.Table.Laws.{lookup-remove}
use agent_dash.Protocol.{state_update}
use agent_dash.Protocol.Requests.{ClientRequest}
use agent_dash.State.{session_at, remove_wrapper}
use agent_dash.State.View.{to_dash_sessions}
use agent_dash.State.Wrappers.{remove_wrapper_lem}
use agent_dash.State.Invariant.{IsConsistent}
use agent_dash.Daemon.{
  Daemon, Env, attempt, try_each, broadcast_state, broadcast_to_subscribers, dirty, with_state,
  encode_line, line as sent_line,
}
use agent_dash.Daemon.Wrappers.{drop_channels, drop_all, child_ids, handle_unregister_wrapper}
use agent_dash.Daemon.Loop as Loop
use agent_dash.Daemon.Loop.{ClientMessage, Turn, client, turn, new, handle_client}
use agent_dash.Daemon.Decisions.Waited.{unregister-facts, run-IsWaited}
use agent_dash.Listener.{Codec, Conn, Input, line, done, start, request_of, run}
use agent_dash.Listener.Composed.{wrapper_messages}

module _ {V P : Type 0} where
  drop_channels-channel :
      (is : List String) (sid : String) (d : Daemon V P)
      → lookup sid d.wrapper_channels ≡ none
      → lookup sid (drop_all is d).wrapper_channels ≡ none
  unfolding drop_all
  drop_channels-channel [] sid d h = h
  drop_channels-channel (i ∷ is) sid d h =
      drop_channels-channel is sid (drop_channels i d)
        (ground (arith, lookup-remove i sid d.wrapper_channels, h))

  try_each-channels :
      (env : Env V P) (text : String) (txs : List ℕ) (d : Daemon V P)
      → (try_each env text txs d).1.wrapper_channels ≡ d.wrapper_channels
  unfolding try_each
  try_each-channels env text [] d = refl
  try_each-channels env text (tx ∷ txs) d =
      try_each-channels env text txs (attempt env (sent_line tx text) d)

  broadcast_state-channels :
      (env : Env V P) (d : Daemon V P)
      → (broadcast_state env d).wrapper_channels ≡ d.wrapper_channels
  unfolding broadcast_state broadcast_to_subscribers
  broadcast_state-channels env d =
      let e = state_update (to_dash_sessions d.state) in
      elim (Option-cases (encode_line env.to_string e)) [
        | inl failed ↦ rw (failed, broadcast_to_subscribers, broadcast_state) refl
        | inr (text, made) ↦
            rw (made, broadcast_to_subscribers, broadcast_state)
              (try_each-channels env text d.subscribers d)
      ]

  unregister-channel :
      (env : Env V P) (sid : String) (d : Daemon V P)
      → lookup sid (handle_unregister_wrapper env sid d).wrapper_channels ≡ none
  unfolding handle_unregister_wrapper
  unregister-channel env sid d =
      let d₁ = drop_all (child_ids sid d.state.sessions) (drop_channels sid d) in
      ap (lookup sid) (broadcast_state-channels env (dirty (with_state (remove_wrapper sid) d₁)))
      ∙ drop_channels-channel (child_ids sid d.state.sessions) sid (drop_channels sid d)
          (ground (arith, lookup-remove sid sid d.wrapper_channels, eq_refl sid))

  unregister-session :
      (env : Env V P) (sid : String) (d : Daemon V P)
      → IsConsistent d.state
      → session_at sid (handle_unregister_wrapper env sid d).state ≡ none
  unregister-session env sid d c =
      ap (session_at sid) (unregister-facts env sid d).state
      ∙ (remove_wrapper_lem sid sid d.state c).0
      ∙ elim (Option-cases (session_at sid d.state)) [
        | inl absent ↦ rw absent refl
        | inr (s, there) ↦ rw (there, eq_refl sid) refl
      ]

  -- the turns of the main loop that take the messages of a connection, which are kept newest first
  abbrev pub turns_of : Env V P → List (ClientMessage V) → List (Env V P × Turn V)
  turns_of env [] = []
  turns_of env (m ∷ ms) = turns_of env ms ++ (env, client m) ∷ []

  pub run-append :
      (xs ys : List (Env V P × Turn V)) (d : Daemon V P)
      → Loop.run (xs ++ ys) d ≡ Loop.run ys (Loop.run xs d)
  unfolding Loop.run
  run-append [] ys d = refl
  run-append (x ∷ xs) ys d = run-append xs ys (turn x.0 x.1 d)

  IsGone : String → Daemon V P → Type 0
  IsGone sid d = (lookup sid d.wrapper_channels ≡ none) × (session_at sid d.state ≡ none)

  last-IsGone :
      (env : Env V P) (sid : String) (turns : List (Env V P × Turn V))
      → IsGone sid
          (Loop.run (turns ++ (env, client (ClientMessage.unregister_wrapper sid)) ∷ []) new)
  unfolding Loop.run turn handle_client IsGone
  last-IsGone env sid turns =
      rw (run-append turns ((env, client (ClientMessage.unregister_wrapper sid)) ∷ []) new) (
        unregister-channel env sid (Loop.run turns new),
        unregister-session env sid (Loop.run turns new) (run-IsWaited turns).consistent,
      )

  -- Once the connection of a wrapper has ended and the main loop has taken its messages, after
  -- whatever it did before, the daemon has no channel under the id that the wrapper registered and
  -- no session of this id. Of other ids, such as an alias of the wrapper, nothing is said.
  pub wrapper_gone :
      (codec : Codec V) (env : Env V P) (text sid agent : String)
      (cwd branch name real : Option String) (inputs : List (Input V)) (c : Conn V)
      (before : List (Env V P × Turn V))
      → request_of codec text ≡ some (ClientRequest.register_wrapper sid agent cwd branch name real)
      → run codec (line text ∷ inputs) start ≡ some c
      → c.mode ≡ done
      → (lookup sid (Loop.run (before ++ turns_of env c.sent) new).wrapper_channels ≡ none)
        × (session_at sid (Loop.run (before ++ turns_of env c.sent) new).state ≡ none)
  unfolding IsGone
  wrapper_gone codec env text sid agent cwd branch name real inputs c before is_reg r ended =
      let (_, phase) =
        wrapper_messages codec text sid agent cwd branch name real inputs c is_reg r in
      elim phase [
        | inl wraps ↦ absurd (ground (arith, wraps, ended))
        | inr (_, (earlier, is_last)) ↦
            rw (is_last, ← append_assoc before (turns_of env earlier) _)
              (last-IsGone env sid (before ++ turns_of env earlier))
      ]
