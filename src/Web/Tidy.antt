-- ===== src/Web/Tidy.antt =====
-- What the connection of a page has watched, it unwatches.
use agent_dash.Prelude.{
  ℕ, String, Option, none, some, List, [], ◌∷◌, ◌≡◌, refl, ap, arith, Bool-cases, Option-cases, inl,
  inr, ◌==◌, eq_iff,
}
use agent_dash.Protocol.Requests.{ClientRequest}
use agent_dash.Daemon.Loop.{ClientMessage}
use agent_dash.Listener.{Codec, limit_or_default}
use agent_dash.Listener.Tidy.{due, IsAmong, IsTidied}
use agent_dash.Web.{
  Page, Disk, Input, message, other, forget, send, farewell, html_or_default, ask, connected,
  dispatch, step, clean_up, run_from, handle_ws,
}

module _ {V : Type 0} where
  -- What is watched will be unwatched, by a message among the later ones.
  abbrev IsCovered : (String → ClientMessage V) → Option String → List (ClientMessage V) → Type 0
  IsCovered unwatch none later = Unit
  IsCovered unwatch (some sid) later = IsAmong (unwatch sid) later

  more :
      (unwatch : String → ClientMessage V) (o : Option String) (m : ClientMessage V)
      (later : List (ClientMessage V))
      → IsCovered unwatch o later
      → IsCovered unwatch o (m ∷ later)
  more unwatch none m later h = tt
  more unwatch (some sid) m later h = inr h

  -- The messages are tidied where what is watched, of two kinds, is unwatched later.
  abbrev IsOwing :
      (unwatch unwatch' : String → ClientMessage V)
      → (o o' : Option String) → List (ClientMessage V)
      → Type 0
  IsOwing unwatch unwatch' o o' sent =
      (later : List (ClientMessage V))
      → IsCovered unwatch o later
      → IsCovered unwatch' o' later
      → IsTidied later sent

  module _ (unwatch unwatch' : String → ClientMessage V)
      (quiet : (sid : String) → due (unwatch sid) ≡ none) where
    send-IsOwing :
        (m : ClientMessage V) (o o' : Option String) (sent : List (ClientMessage V))
        → due m ≡ none
        → IsOwing unwatch unwatch' o o' sent
        → IsOwing unwatch unwatch' o o' (m ∷ sent)
    send-IsOwing m o o' sent nothing h = λ later a b.
        (rw nothing tt, h (m ∷ later) (more unwatch o m later a) (more unwatch' o' m later b))

    farewell-IsOwing :
        (o o' : Option String) (sent : List (ClientMessage V))
        → IsOwing unwatch unwatch' o o' sent
        → IsOwing unwatch unwatch' none o' (farewell unwatch o sent)
    farewell-IsOwing none o' sent h = h
    farewell-IsOwing (some sid) o' sent h = λ later a b. (
      rw (quiet sid) tt,
      h (unwatch sid ∷ later) (inl refl) (more unwatch' o' (unwatch sid) later b),
    )

    watch-IsOwing :
        (m : ClientMessage V) (sid : String) (o o' : Option String) (sent : List (ClientMessage V))
        → due m ≡ some (unwatch sid)
        → IsOwing unwatch unwatch' o o' sent
        → IsOwing unwatch unwatch' (some sid) o' (m ∷ farewell unwatch o sent)
    watch-IsOwing m sid o o' sent opens h = λ later a b.
        (rw opens a, farewell-IsOwing o o' sent h (m ∷ later) tt (more unwatch' o' m later b))

    forget-IsOwing :
        (sid : String) (o o' : Option String) (sent : List (ClientMessage V))
        → IsOwing unwatch unwatch' o o' sent
        → IsOwing unwatch unwatch' (forget sid o) o' (unwatch sid ∷ sent)
    forget-IsOwing sid none o' sent h = send-IsOwing (unwatch sid) none o' sent (quiet sid) h
    forget-IsOwing sid (some watched) o' sent h = elim (Bool-cases (watched == sid)) [
      | inl e ↦ rw e (λ later a b. (
        rw (quiet sid) tt,
        h (unwatch sid ∷ later) (inl (ap unwatch (ground (arith, eq_iff watched sid))))
            (more unwatch' o' (unwatch sid) later b),
      ))
      | inr e ↦ rw e (send-IsOwing (unwatch sid) (some watched) o' sent (quiet sid) h)
    ]

  abbrev IsKept : Page V → Type 0
  IsKept p =
      IsOwing ClientMessage.unwatch_session ClientMessage.unwatch_terminal p.watched_session
        p.watched_terminal p.sent

  -- the same, with the two kinds the other way round
  flip_terminals :
      (p : Page V)
      → IsOwing ClientMessage.unwatch_terminal ClientMessage.unwatch_session p.watched_terminal
          p.watched_session p.sent
      → IsKept p
  flip_terminals p h = λ later a b. h later b a

  sent-IsKept : (m : ClientMessage V) (p : Page V) → due m ≡ none → IsKept p → IsKept (send m p)
  sent-IsKept m p quiet h =
      send-IsOwing ClientMessage.unwatch_session ClientMessage.unwatch_terminal (λ sid. refl) m
        p.watched_session p.watched_terminal p.sent quiet h

  ask-IsKept :
      (m : ℕ → ClientMessage V) (reply : Option String) (p : Page V)
      → ((tx : ℕ) → due (m tx) ≡ none)
      → IsKept p
      → IsKept (ask m reply p)
  ask-IsKept m reply p quiet h = sent-IsKept (m p.next_channel) p (quiet p.next_channel) h

  module _ (codec : Codec V) (disk : Disk) where
    dispatch-IsKept :
        (req : ClientRequest V) (reply : Option String) (p : Page V)
        → IsKept p
        → IsKept (dispatch codec disk req reply p)
    unfolding dispatch
    dispatch-IsKept (ClientRequest.get_state include_subagents) reply p h =
        ask-IsKept (ClientMessage.get_state include_subagents) reply p (λ tx. refl) h
    dispatch-IsKept (ClientRequest.get_messages sid format limit) reply p h =
        ask-IsKept
          (ClientMessage.get_messages sid (html_or_default format) (limit_or_default limit)) reply p
          (λ tx. refl) h
    dispatch-IsKept (ClientRequest.watch_session sid format) reply p h =
        watch-IsOwing ClientMessage.unwatch_session ClientMessage.unwatch_terminal (λ id. refl)
          (ClientMessage.watch_session sid (html_or_default format) 0) sid p.watched_session
          p.watched_terminal p.sent refl h
    dispatch-IsKept (ClientRequest.unwatch_session sid) reply p h =
        forget-IsOwing ClientMessage.unwatch_session ClientMessage.unwatch_terminal (λ id. refl) sid
          p.watched_session p.watched_terminal p.sent h
    dispatch-IsKept (ClientRequest.send_prompt sid text images) reply p h =
        ask-IsKept (ClientMessage.send_prompt sid text images) reply p (λ tx. refl) h
    dispatch-IsKept (ClientRequest.permission_response rid sid answer suggestion) reply p h =
        sent-IsKept _ p refl h
    dispatch-IsKept (ClientRequest.list_sessions project) reply p h =
        ask-IsKept (ClientMessage.list_sessions project) reply p (λ tx. refl) h
    dispatch-IsKept (ClientRequest.watch_terminal sid) reply p h =
        flip_terminals
          (record p {
            watched_terminal = some sid;
            sent =
                ClientMessage.watch_terminal sid 0
                ∷ farewell ClientMessage.unwatch_terminal p.watched_terminal p.sent;
          })
          (watch-IsOwing ClientMessage.unwatch_terminal ClientMessage.unwatch_session (λ id. refl)
            (ClientMessage.watch_terminal sid 0) sid p.watched_terminal p.watched_session p.sent
            refl (λ later b a. h later a b))
    dispatch-IsKept (ClientRequest.unwatch_terminal sid) reply p h =
        flip_terminals
          (send (ClientMessage.unwatch_terminal sid)
            (record p { watched_terminal = forget sid p.watched_terminal }))
          (forget-IsOwing ClientMessage.unwatch_terminal ClientMessage.unwatch_session (λ id. refl)
            sid p.watched_terminal p.watched_session p.sent (λ later b a. h later a b))
    dispatch-IsKept (ClientRequest.create_session agent cwd cols rows) reply p h =
        ask-IsKept (ClientMessage.create_session agent cwd cols rows) reply p (λ tx. refl) h
    dispatch-IsKept (ClientRequest.terminal_input sid payload) reply p h = sent-IsKept _ p refl h
    dispatch-IsKept (ClientRequest.terminal_resize sid cols rows) reply p h = sent-IsKept _ p refl h
    dispatch-IsKept (ClientRequest.list_directory path) reply p h = h
    dispatch-IsKept _ reply p h = h

    step-IsKept : (i : Input) (p : Page V) → IsKept p → IsKept (step codec disk i p)
    unfolding step
    step-IsKept (message json reply) p h = elim (Option-cases (codec.read_request json)) [
      | inl e ↦ rw (e, step) h
      | inr (req, e) ↦ rw (e, step) (dispatch-IsKept req reply p h)
    ]
    step-IsKept other p h = h

    clean_up-IsTidied : (p : Page V) → IsKept p → IsTidied [] (clean_up codec disk p).sent
    unfolding clean_up
    clean_up-IsTidied p h =
        farewell-IsOwing ClientMessage.unwatch_terminal ClientMessage.unwatch_session (λ id. refl)
          p.watched_terminal none (farewell ClientMessage.unwatch_session p.watched_session p.sent)
          (λ later b a.
            farewell-IsOwing ClientMessage.unwatch_session ClientMessage.unwatch_terminal
              (λ id. refl) p.watched_session p.watched_terminal p.sent h later a b)
          [] tt tt

    run_from-IsTidied :
        (inputs : List Input) (p : Page V)
        → IsKept p
        → IsTidied [] (run_from codec disk inputs p).sent
    unfolding run_from
    run_from-IsTidied [] p h = clean_up-IsTidied p h
    run_from-IsTidied (i ∷ inputs) p h =
        run_from-IsTidied inputs (step codec disk i p) (step-IsKept i p h)

    -- Whatever a page sends until its connection ends, each session and each terminal that its
    -- connection has asked the main loop to watch is unwatched by a later message of the connection.
    pub handle_ws-IsTidied : (inputs : List Input) → IsTidied [] (handle_ws codec disk inputs).sent
    handle_ws-IsTidied inputs = run_from-IsTidied inputs connected (λ later a b. (tt, tt))
