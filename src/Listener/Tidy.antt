-- ===== src/Listener/Tidy.antt =====
-- What a connection opens, it closes: a wrapper that registered is unregistered, and a session or a
-- terminal that was watched is not any more.
use agent_dash.Prelude.{
  String, Option, none, some, List, [], ◌∷◌, ◌≡◌, refl, arith, Option-cases, inl, inr, ◌⊎◌, Bool,
  true, false, if◌then◌else◌, both_branches, subst, subst-some, sym, ap, ◌>>=◌,
}
use Prim.Native.String.{◌++◌}
use agent_dash.Protocol.Requests.{ClientRequest}
use agent_dash.Daemon.Loop.{ClientMessage}
use agent_dash.Listener.{
  Codec, Mode, reading, streaming, wrapping, done, awaiting_reply, awaiting_decision, Conn, Input,
  line, eof, reply, decision, pushed, event, hung_up, start, send, write, write_line, enter,
  end_stream, end_wrapper, dispatch, dispatch_wrapper, request_of, on_line, step, run,
}

module _ {V : Type 0} where
  -- the message that undoes one that opens something
  abbrev pub due : ClientMessage V → Option (ClientMessage V)
  due (ClientMessage.register_wrapper reg) = some (ClientMessage.unregister_wrapper reg.session_id)
  due (ClientMessage.watch_session sid format tx) = some (ClientMessage.unwatch_session sid)
  due (ClientMessage.watch_terminal sid tx) = some (ClientMessage.unwatch_terminal sid)
  due _ = none

  -- is among some messages
  abbrev pub IsAmong : ClientMessage V → List (ClientMessage V) → Type 0
  IsAmong m [] = ⊥
  IsAmong m (x ∷ xs) = (m ≡ x) ⊎ IsAmong m xs

  abbrev pub IsPaid : Option (ClientMessage V) → List (ClientMessage V) → Type 0
  IsPaid none later = Unit
  IsPaid (some m) later = IsAmong m later

  -- Each message of a list, newest first, is undone by a later one if it opens something.
  abbrev pub IsTidied : (later messages : List (ClientMessage V)) → Type 0
  IsTidied later [] = Unit
  IsTidied later (m ∷ ms) = IsPaid (due m) later × IsTidied (m ∷ later) ms

  -- the later list may have more
  IsWithin : (xs ys : List (ClientMessage V)) → Type 0
  IsWithin xs ys = (m : ClientMessage V) → IsAmong m xs → IsAmong m ys

  IsPaid-IsWithin :
      (o : Option (ClientMessage V)) (xs ys : List (ClientMessage V))
      → IsWithin xs ys
      → IsPaid o xs
      → IsPaid o ys
  unfolding IsWithin
  IsPaid-IsWithin none xs ys w h = tt
  IsPaid-IsWithin (some m) xs ys w h = w m h

  IsWithin-both :
      (x : ClientMessage V) (xs ys : List (ClientMessage V))
      → IsWithin xs ys
      → IsWithin (x ∷ xs) (x ∷ ys)
  unfolding IsWithin
  IsWithin-both x xs ys w m h = elim h [ inl e ↦ inl e | inr r ↦ inr (w m r) ]

  IsTidied-IsWithin :
      (ms xs ys : List (ClientMessage V)) → IsWithin xs ys → IsTidied xs ms → IsTidied ys ms
  IsTidied-IsWithin [] xs ys w h = tt
  IsTidied-IsWithin (m ∷ ms) xs ys w h = (
    IsPaid-IsWithin (due m) xs ys w h.0,
    IsTidied-IsWithin ms (m ∷ xs) (m ∷ ys) (IsWithin-both m xs ys w) h.1,
  )

  -- a message that opens nothing may come in between
  IsTidied-send :
      (m : ClientMessage V) (later ms : List (ClientMessage V))
      → due m ≡ none
      → IsTidied later ms
      → IsTidied later (m ∷ ms)
  unfolding IsWithin
  IsTidied-send m later ms quiet h =
      (rw quiet tt, IsTidied-IsWithin ms later (m ∷ later) (λ x among. inr among) h)

  -- what a mode sends in the end
  abbrev closing : Mode V → List (ClientMessage V)
  closing (streaming none) = []
  closing (streaming (some m)) = m ∷ []
  closing (wrapping sid) = ClientMessage.unregister_wrapper sid ∷ []
  closing _ = []

  abbrev IsQuiet : Mode V → Type 0
  IsQuiet (streaming (some m)) = due m ≡ none
  IsQuiet _ = Unit

  -- With what its mode sends in the end, the messages of a connection are tidied.
  abbrev IsClosing : Conn V → Type 0
  IsClosing c = IsTidied (closing c.mode) c.sent × IsQuiet c.mode

  IsTidied-any : (later ms : List (ClientMessage V)) → IsTidied [] ms → IsTidied later ms
  unfolding IsWithin
  IsTidied-any later ms h = IsTidied-IsWithin ms [] later (λ m among. absurd among) h

  -- a message that opens nothing, from the mode that reads
  send-IsClosing :
      (m : ClientMessage V) (c : Conn V)
      → due m ≡ none
      → c.mode ≡ reading
      → IsTidied [] c.sent
      → IsClosing (send m c)
  send-IsClosing m c quiet e h = rw e (IsTidied-send m [] c.sent quiet h, tt)

  dispatch-IsClosing :
      (req : ClientRequest V) (c : Conn V)
      → c.mode ≡ reading
      → IsTidied [] c.sent
      → IsClosing (dispatch req c)
  unfolding dispatch
  dispatch-IsClosing (ClientRequest.permission_response rid sid answer suggestion) c e h =
      send-IsClosing (ClientMessage.permission_response rid sid answer suggestion) c refl e h
  dispatch-IsClosing (ClientRequest.unwatch_session sid) c e h =
      send-IsClosing (ClientMessage.unwatch_session sid) c refl e h
  dispatch-IsClosing (ClientRequest.unregister_wrapper sid) c e h =
      send-IsClosing (ClientMessage.unregister_wrapper sid) c refl e h
  dispatch-IsClosing (ClientRequest.update_suggestion sid suggestion) c e h =
      send-IsClosing (ClientMessage.update_suggestion sid suggestion) c refl e h
  dispatch-IsClosing (ClientRequest.update_thinking_text sid text) c e h =
      send-IsClosing (ClientMessage.update_thinking_text sid text) c refl e h
  dispatch-IsClosing (ClientRequest.terminal_output sid payload) c e h =
      send-IsClosing (ClientMessage.terminal_output sid payload) c refl e h
  dispatch-IsClosing (ClientRequest.unwatch_terminal sid) c e h =
      send-IsClosing (ClientMessage.unwatch_terminal sid) c refl e h
  dispatch-IsClosing (ClientRequest.terminal_input sid payload) c e h =
      send-IsClosing (ClientMessage.terminal_input sid payload) c refl e h
  dispatch-IsClosing (ClientRequest.terminal_resize sid cols rows) c e h =
      send-IsClosing (ClientMessage.terminal_resize sid cols rows) c refl e h
  dispatch-IsClosing (ClientRequest.list_directory path) c e h = rw e (h, tt)
  dispatch-IsClosing (ClientRequest.watch_session sid format) c e h =
      ((inl refl, IsTidied-any _ c.sent h), refl)
  dispatch-IsClosing (ClientRequest.watch_terminal sid) c e h =
      ((inl refl, IsTidied-any _ c.sent h), refl)
  dispatch-IsClosing (ClientRequest.register_wrapper sid agent cwd branch name real) c e h =
      ((inl refl, IsTidied-any _ c.sent h), tt)
  dispatch-IsClosing _ c e h = ((tt, IsTidied-any _ c.sent h), tt)

  wrapped-IsClosing :
      (sid : String) (req : ClientRequest V) (c : Conn V)
      → c.mode ≡ wrapping sid
      → IsTidied (ClientMessage.unregister_wrapper sid ∷ []) c.sent
      → IsClosing (dispatch_wrapper sid req c)
  unfolding dispatch_wrapper
  wrapped-IsClosing sid (ClientRequest.unregister_wrapper _) c e h = ((tt, h), tt)
  wrapped-IsClosing sid (ClientRequest.update_suggestion id suggestion) c e h =
      rw e (IsTidied-send (ClientMessage.update_suggestion id suggestion) _ c.sent refl h, tt)
  wrapped-IsClosing sid (ClientRequest.update_thinking_text id text) c e h =
      rw e (IsTidied-send (ClientMessage.update_thinking_text id text) _ c.sent refl h, tt)
  wrapped-IsClosing sid _ c e h = rw e (h, tt)

  end_stream-IsClosing :
      (farewell : Option (ClientMessage V)) (c : Conn V)
      → IsTidied (closing (streaming farewell)) c.sent
      → IsQuiet (streaming farewell)
      → IsClosing (end_stream farewell c)
  end_stream-IsClosing none c h q = (h, tt)
  end_stream-IsClosing (some m) c h q = ((rw q tt, h), tt)

  module _ (codec : Codec V) where
    line-IsClosing :
        (handle : ClientRequest V → Conn V → Conn V) (text : String) (c : Conn V)
        → ((req : ClientRequest V) → IsClosing (handle req c))
        → IsClosing c
        → IsClosing (on_line codec handle text c)
    line-IsClosing handle text c each h = elim (Option-cases (request_of codec text)) [
      | inl junk ↦ rw (junk, on_line) h
      | inr (req, is_req) ↦ rw (is_req, on_line) (each req)
    ]

    event-IsClosing :
        (sid : String) (o : Option String) (is_written : Bool) (c : Conn V)
        → c.mode ≡ wrapping sid
        → IsTidied (closing (wrapping sid)) c.sent
        → IsClosing (elim o [
          | none ↦ c
          | some text ↦ if is_written then write (text ++ "\n") c else end_wrapper sid c
        ])
    event-IsClosing sid none is_written c e h = rw e (h, tt)
    event-IsClosing sid (some text) true c e h = rw e (h, tt)
    event-IsClosing sid (some text) false c e h = ((tt, h), tt)

    written-IsClosing :
        (o : Option String) (c : Conn V)
        → IsTidied [] c.sent
        → IsClosing (enter reading (write_line codec o c))
    written-IsClosing none c h = (h, tt)
    written-IsClosing (some text) c h = (h, tt)

    step-IsClosing :
        (i : Input V) (mode : Mode V) (c c' : Conn V)
        → c.mode ≡ mode
        → step codec i mode c ≡ some c'
        → IsTidied (closing mode) c.sent
        → IsQuiet mode
        → IsClosing c'
    unfolding step
    step-IsClosing (line text) reading c c' e s h q =
        subst-some IsClosing s
          (line-IsClosing dispatch text c (λ req. dispatch-IsClosing req c e h) (rw e (h, tt)))
    step-IsClosing eof reading c c' e s h q = subst-some IsClosing s (h, tt)
    step-IsClosing (reply none) awaiting_reply c c' e s h q = subst-some IsClosing s (h, tt)
    step-IsClosing (reply (some text)) awaiting_reply c c' e s h q = subst-some IsClosing s (h, tt)
    step-IsClosing (decision none) awaiting_decision c c' e s h q = subst-some IsClosing s (h, tt)
    step-IsClosing (decision (some d)) awaiting_decision c c' e s h q =
        subst-some IsClosing s (written-IsClosing (codec.decision_json d) c h)
    step-IsClosing (pushed text is_written) (streaming farewell) c c' e s h q =
        subst-some IsClosing s
          (both_branches IsClosing is_written (rw e (h, q)) (end_stream-IsClosing farewell c h q))
    step-IsClosing hung_up (streaming farewell) c c' e s h q =
        subst-some IsClosing s (end_stream-IsClosing farewell c h q)
    step-IsClosing (line text) (wrapping sid) c c' e s h q = subst-some IsClosing s (
        line-IsClosing (dispatch_wrapper sid) text c (λ req. wrapped-IsClosing sid req c e h)
          (rw e (h, tt)))
    step-IsClosing eof (wrapping sid) c c' e s h q = subst-some IsClosing s ((tt, h), tt)
    step-IsClosing (event ev is_written) (wrapping sid) c c' e s h q =
        subst-some IsClosing s (event-IsClosing sid (codec.event_json ev) is_written c e h)
    step-IsClosing hung_up (wrapping sid) c c' e s h q = subst-some IsClosing s ((tt, h), tt)
    step-IsClosing _ _ c c' e s h q = absurd (cc)

    run-IsClosing :
        (inputs : List (Input V)) (c c' : Conn V)
        → run codec inputs c ≡ some c'
        → IsClosing c
        → IsClosing c'
    unfolding run
    run-IsClosing [] c c' r h = subst-some IsClosing r h
    run-IsClosing (i ∷ inputs) c c' r h = elim (Option-cases (step codec i c.mode c)) [
      | inl stuck ↦ absurd (ground (arith, stuck, r))
      | inr (c₁, stepped) ↦
          run-IsClosing inputs c₁ c' (rw⁻¹ r (ap (λ o. o >>= run codec inputs) (sym stepped)))
            (step-IsClosing i c.mode c c₁ refl stepped h.0 h.1)
    ]

    -- Whatever a connection receives, every message by which it has registered a wrapper or begun
    -- to watch a session or a terminal is followed by the one that undoes it, once the connection
    -- has ended.
    pub run-IsTidied :
        (inputs : List (Input V)) (c : Conn V)
        → run codec inputs start ≡ some c
        → c.mode ≡ done
        → IsTidied [] c.sent
    run-IsTidied inputs c r ended =
        subst (λ mode. IsTidied (closing mode) c.sent) ended
          ((run-IsClosing inputs start c r (tt, tt)).0)
