-- ===== src/Listener/Composed.antt =====
-- The connection of a wrapper: what the main loop is sent through it, and what is left of the
-- wrapper there when the connection has ended.
use agent_dash.Prelude.{
  String, Bool, true, false, Option, none, some, List, [], ◌∷◌, ◌≡◌, refl, sym, ap, subst,
  subst-some, ◌∙◌, ◌⊎◌, inl, inr, arith, Option-cases, All, if◌then◌else◌,
}
use Prim.Native.String.{◌++◌ as ◌<>◌}
use agent_dash.Protocol.Requests.{ClientRequest}
use agent_dash.Daemon.Wrappers.{Registration}
use agent_dash.Daemon.Loop.{ClientMessage}
use agent_dash.Listener.{
  Codec, wrapping, done, Conn, Input, line, eof, event, hung_up, reply, decision, pushed, start,
  write, end_wrapper, dispatch, dispatch_wrapper, request_of, on_line, step, run,
}
use agent_dash.Listener.Skipped.{run-step}

module _ {V : Type 0} where
  -- what a wrapper's connection for a session may send: the registration, updates, and the end
  abbrev pub IsOfWrapper : Registration → ClientMessage V → Type 0
  IsOfWrapper reg (ClientMessage.register_wrapper r) = r ≡ reg
  IsOfWrapper reg (ClientMessage.update_suggestion id suggestion) = Unit
  IsOfWrapper reg (ClientMessage.update_thinking_text id text) = Unit
  IsOfWrapper reg (ClientMessage.unregister_wrapper id) = id ≡ reg.session_id
  IsOfWrapper reg _ = ⊥

  -- the last message is the unregistration
  abbrev pub IsUnregistered : String → List (ClientMessage V) → Type 0
  IsUnregistered sid ms =
      (earlier : List (ClientMessage V)) × (ms ≡ ClientMessage.unregister_wrapper sid ∷ earlier)

  IsWrapped : Registration → Conn V → Type 0
  IsWrapped reg c =
      All (IsOfWrapper reg) c.sent
      × ((c.mode ≡ wrapping reg.session_id)
          ⊎ ((c.mode ≡ done) × IsUnregistered reg.session_id c.sent))

  end_wrapper-IsWrapped :
      (reg : Registration) (c : Conn V)
      → All (IsOfWrapper reg) c.sent
      → IsWrapped reg (end_wrapper reg.session_id c)
  unfolding IsWrapped
  end_wrapper-IsWrapped reg c h = ((refl, h), inr (refl, (c.sent, refl)))

  dispatch_wrapper-IsWrapped :
      (reg : Registration) (req : ClientRequest V) (c : Conn V)
      → c.mode ≡ wrapping reg.session_id
      → All (IsOfWrapper reg) c.sent
      → IsWrapped reg (dispatch_wrapper reg.session_id req c)
  unfolding dispatch_wrapper IsWrapped
  dispatch_wrapper-IsWrapped reg (ClientRequest.unregister_wrapper _) c e h =
      end_wrapper-IsWrapped reg c h
  dispatch_wrapper-IsWrapped reg (ClientRequest.update_suggestion id suggestion) c e h =
      ((tt, h), inl e)
  dispatch_wrapper-IsWrapped reg (ClientRequest.update_thinking_text id text) c e h =
      ((tt, h), inl e)
  dispatch_wrapper-IsWrapped reg _ c e h = (h, inl e)

  module _ (codec : Codec V) where
    on_line-IsWrapped :
        (reg : Registration) (text : String) (c : Conn V)
        → c.mode ≡ wrapping reg.session_id
        → All (IsOfWrapper reg) c.sent
        → IsWrapped reg (on_line codec (dispatch_wrapper reg.session_id) text c)
    unfolding IsWrapped
    on_line-IsWrapped reg text c e h = elim (Option-cases (request_of codec text)) [
      | inl junk ↦ rw (junk, on_line) (h, inl e)
      | inr (req, is_req) ↦ rw (is_req, on_line) (dispatch_wrapper-IsWrapped reg req c e h)
    ]

    event-IsWrapped :
        (reg : Registration) (o : Option String) (is_written : Bool) (c : Conn V)
        → c.mode ≡ wrapping reg.session_id
        → All (IsOfWrapper reg) c.sent
        → IsWrapped reg (elim o [
          | none ↦ c
          | some text ↦ if is_written then write (text <> "\n") c else end_wrapper reg.session_id c
        ])
    unfolding IsWrapped
    event-IsWrapped reg none is_written c e h = (h, inl e)
    event-IsWrapped reg (some text) true c e h = (h, inl e)
    event-IsWrapped reg (some text) false c e h = end_wrapper-IsWrapped reg c h

    step-IsWrapped :
        (reg : Registration) (i : Input V) (c c' : Conn V)
        → c.mode ≡ wrapping reg.session_id
        → step codec i (wrapping reg.session_id) c ≡ some c'
        → All (IsOfWrapper reg) c.sent
        → IsWrapped reg c'
    unfolding step
    step-IsWrapped reg (line text) c c' e s h =
        subst-some (IsWrapped reg) s (on_line-IsWrapped reg text c e h)
    step-IsWrapped reg eof c c' e s h = subst-some (IsWrapped reg) s (end_wrapper-IsWrapped reg c h)
    step-IsWrapped reg (event ev is_written) c c' e s h =
        subst-some (IsWrapped reg) s (event-IsWrapped reg (codec.event_json ev) is_written c e h)
    step-IsWrapped reg hung_up c c' e s h =
        subst-some (IsWrapped reg) s (end_wrapper-IsWrapped reg c h)
    step-IsWrapped reg (reply none) c c' e s h = absurd (cc)
    step-IsWrapped reg (reply (some text)) c c' e s h = absurd (cc)
    step-IsWrapped reg (decision none) c c' e s h = absurd (cc)
    step-IsWrapped reg (decision (some d)) c c' e s h = absurd (cc)
    step-IsWrapped reg (pushed text is_written) c c' e s h = absurd (cc)

    step-done : (i : Input V) (c : Conn V) → step codec i done c ≡ none
    unfolding step
    step-done (line text) c = refl
    step-done eof c = refl
    step-done (reply none) c = refl
    step-done (reply (some text)) c = refl
    step-done (decision none) c = refl
    step-done (decision (some d)) c = refl
    step-done (pushed text is_written) c = refl
    step-done (event ev is_written) c = refl
    step-done hung_up c = refl

    run-done :
        (inputs : List (Input V)) (c c' : Conn V)
        → c.mode ≡ done
        → run codec inputs c ≡ some c'
        → c ≡ c'
    unfolding run
    run-done [] c c' e r = cc
    run-done (i ∷ inputs) c c' e r = ground (arith, step-done i c, e, r)

    run-IsWrapped :
        (reg : Registration) (inputs : List (Input V)) (c c' : Conn V)
        → run codec inputs c ≡ some c'
        → IsWrapped reg c
        → IsWrapped reg c'
    unfolding run IsWrapped
    run-IsWrapped reg [] c c' r h = subst-some (IsWrapped reg) r h
    run-IsWrapped reg (i ∷ inputs) c c' r (sent, inr (ended, last)) =
        subst (IsWrapped reg) (run-done (i ∷ inputs) c c' ended r) (sent, inr (ended, last))
    run-IsWrapped reg (i ∷ inputs) c c' r (sent, inl wraps) =
        elim (Option-cases (step codec i (wrapping reg.session_id) c)) [
          | inl stuck ↦ absurd (ground (arith, stuck, r, wraps))
          | inr (c₁, stepped) ↦
              run-IsWrapped reg inputs c₁ c'
                (sym (run-step codec i inputs c c₁ (ap (λ m. step codec i m c) wraps ∙ stepped))
                  ∙ r)
                (step-IsWrapped reg i c c₁ wraps stepped sent)
        ]

    -- the registration that a request makes on a new connection
    abbrev pub registration :
        (sid agent : String) → (cwd branch name real : Option String) → Registration
    registration sid agent cwd branch name real = record {
      session_id = sid;
      agent = agent;
      cwd = cwd;
      branch = branch;
      project_name = name;
      real_session_id = real;
      wrapper_tx = 0;
    }

    -- A connection that begins with the registration of a wrapper sends the main loop nothing but
    -- this registration, updates of a suggestion or of a thinking text, and the unregistration of the
    -- same session, whatever else it receives; and when it has ended, the last that it sent is the
    -- unregistration.
    pub wrapper_messages :
        (text sid agent : String) (cwd branch name real : Option String) (inputs : List (Input V))
        (c : Conn V)
        → request_of codec text
          ≡ some (ClientRequest.register_wrapper sid agent cwd branch name real)
        → run codec (line text ∷ inputs) start ≡ some c
        → All (IsOfWrapper (registration sid agent cwd branch name real)) c.sent
          × ((c.mode ≡ wrapping sid) ⊎ ((c.mode ≡ done) × IsUnregistered sid c.sent))
    unfolding IsWrapped step dispatch
    wrapper_messages text sid agent cwd branch name real inputs c is_reg r =
        let reg = registration sid agent cwd branch name real in
        let c₁ = dispatch (ClientRequest.register_wrapper sid agent cwd branch name real) start in
        run-IsWrapped reg inputs c₁ c
          (sym (run-step codec (line text) inputs start c₁ (ground (arith, is_reg))) ∙ r)
          ((refl, tt), inl refl)
