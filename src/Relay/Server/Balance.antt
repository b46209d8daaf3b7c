-- ===== src/Relay/Server/Balance.antt =====
-- Who joins through a connection, and who leaves by it.
use mathlib.Core.List.{append_assoc, append-nil}
use agent_dash.Prelude.{
  ℕ, String, true, false, ◌≡◌, refl, ◌∙◌, ap, sym, Option, none, some, List, [], ◌∷◌, ◌++◌,
  Bool-cases, inl, inr,
}
use agent_dash.Relay.{auth, auth_ok, auth_error, encrypted, peer_change, sync, sync_response}
use agent_dash.Relay.Server.{
  text, close, failed, ping, other, Event, frame, ended, auth_accepted, auth_rejected, missed,
  no_reply, outgoing, Parsed, parsed, malformed, Phase, waiting, asked, joined, syncing, closed,
  panicked, Action, says, passes, pong, asks_auth, forwards, asks_sync, disconnects, admits,
  first_message, next_message, can_log, step, run,
}

-- a channel and a client
abbrev pub Member : Type 0
Member = String × String

-- Who has joined, in the order of the trace: at each `auth_ok` that the client is told, the member
-- for whom the manager was last asked, if there is one.
abbrev pub admitted : Option Member → List Action → List (Option Member)
admitted asker [] = []
admitted asker (asks_auth cid key ∷ rest) = admitted (some (cid, key)) rest
admitted asker (says (auth_ok _) ∷ rest) = asker ∷ admitted asker rest
admitted asker (_ ∷ rest) = admitted asker rest

-- who is disconnected, in the order of the trace
abbrev pub disconnected : List Action → List (Option Member)
disconnected [] = []
disconnected (disconnects cid key ∷ rest) = some (cid, key) ∷ disconnected rest
disconnected (_ ∷ rest) = disconnected rest

-- the member that a connection keeps at the channel manager
abbrev pub held : Phase → List (Option Member)
held waiting = []
held (asked _ _) = []
held (joined cid key) = some (cid, key) ∷ []
held (syncing cid key _) = some (cid, key) ∷ []
held closed = []
held (panicked cid key) = some (cid, key) ∷ []

-- for whom the manager was last asked
abbrev last_asked : Option Member → List Action → Option Member
last_asked asker [] = asker
last_asked asker (asks_auth cid key ∷ rest) = last_asked (some (cid, key)) rest
last_asked asker (_ ∷ rest) = last_asked asker rest

-- what a connection that waits for an answer of the manager has asked
abbrev IsAsker : Phase → Option Member → Type 0
IsAsker (asked cid key) asker = asker ≡ some (cid, key)
IsAsker _ asker = Unit

-- what some actions do to the account of a connection
abbrev IsBalanced : Option Member → Phase → Phase × List Action → Type 0
IsBalanced asker phase (next, actions) =
    IsAsker next (last_asked asker actions)
    × (held phase ++ admitted asker actions ≡ disconnected actions ++ held next)

admitted-append :
    (asker : Option Member) (xs ys : List Action)
    → admitted asker (xs ++ ys) ≡ admitted asker xs ++ admitted (last_asked asker xs) ys
admitted-append asker [] ys = refl
admitted-append asker (disconnects _ _ ∷ xs) ys = admitted-append asker xs ys
admitted-append asker (says (auth_ok _) ∷ xs) ys =
    ap (λ ms. asker ∷ ms) (admitted-append asker xs ys)
admitted-append asker (says (auth_error _) ∷ xs) ys = admitted-append asker xs ys
admitted-append asker (says (auth _ _ _) ∷ xs) ys = admitted-append asker xs ys
admitted-append asker (says (encrypted _ _ _) ∷ xs) ys = admitted-append asker xs ys
admitted-append asker (says (peer_change _ _) ∷ xs) ys = admitted-append asker xs ys
admitted-append asker (says (sync _ _) ∷ xs) ys = admitted-append asker xs ys
admitted-append asker (says (sync_response _ _) ∷ xs) ys = admitted-append asker xs ys
admitted-append asker (passes _ ∷ xs) ys = admitted-append asker xs ys
admitted-append asker (pong _ ∷ xs) ys = admitted-append asker xs ys
admitted-append asker (asks_auth cid key ∷ xs) ys = admitted-append (some (cid, key)) xs ys
admitted-append asker (forwards _ _ _ ∷ xs) ys = admitted-append asker xs ys
admitted-append asker (asks_sync _ _ ∷ xs) ys = admitted-append asker xs ys

disconnected-append :
    (xs ys : List Action) → disconnected (xs ++ ys) ≡ disconnected xs ++ disconnected ys
disconnected-append [] ys = refl
disconnected-append (disconnects cid key ∷ xs) ys =
    ap (λ ms. some (cid, key) ∷ ms) (disconnected-append xs ys)
disconnected-append (says _ ∷ xs) ys = disconnected-append xs ys
disconnected-append (passes _ ∷ xs) ys = disconnected-append xs ys
disconnected-append (pong _ ∷ xs) ys = disconnected-append xs ys
disconnected-append (asks_auth _ _ ∷ xs) ys = disconnected-append xs ys
disconnected-append (forwards _ _ _ ∷ xs) ys = disconnected-append xs ys
disconnected-append (asks_sync _ _ ∷ xs) ys = disconnected-append xs ys

module _ (from_str : String → Parsed) (required : Option String) where
  first_message-balance :
      (asker : Option Member) (m : Parsed) → IsBalanced asker waiting (first_message required m)
  unfolding first_message
  first_message-balance asker (parsed (auth cid key token)) =
      elim (Bool-cases (admits required token)) [
        | inl ok ↦ rw ok (refl, refl)
        | inr bad ↦ rw bad (tt, refl)
      ]
  first_message-balance asker (parsed (auth_ok _)) = (tt, refl)
  first_message-balance asker (parsed (auth_error _)) = (tt, refl)
  first_message-balance asker (parsed (encrypted _ _ _)) = (tt, refl)
  first_message-balance asker (parsed (peer_change _ _)) = (tt, refl)
  first_message-balance asker (parsed (sync _ _)) = (tt, refl)
  first_message-balance asker (parsed (sync_response _ _)) = (tt, refl)
  first_message-balance asker (malformed _) = (tt, refl)

  next_message-balance :
      (asker : Option Member) (cid key content : String) (m : Parsed)
      → IsBalanced asker (joined cid key) (next_message cid key content m)
  unfolding next_message
  next_message-balance asker cid key content (parsed (encrypted _ _ _)) = (tt, refl)
  next_message-balance asker cid key content (parsed (sync _ _)) = (tt, refl)
  next_message-balance asker cid key content (parsed (auth _ _ _)) = (tt, refl)
  next_message-balance asker cid key content (parsed (auth_ok _)) = (tt, refl)
  next_message-balance asker cid key content (parsed (auth_error _)) = (tt, refl)
  next_message-balance asker cid key content (parsed (peer_change _ _)) = (tt, refl)
  next_message-balance asker cid key content (parsed (sync_response _ _)) = (tt, refl)
  next_message-balance asker cid key content (malformed _) = (tt, refl)

  step-balance :
      (asker : Option Member) (phase : Phase) (e : Event)
      → IsAsker phase asker
      → IsBalanced asker phase (step from_str required phase e)
  unfolding step
  step-balance asker waiting (frame (text content)) h =
      first_message-balance asker (from_str content)
  step-balance asker waiting (frame close) h = (tt, refl)
  step-balance asker waiting (frame failed) h = (tt, refl)
  step-balance asker waiting (frame (ping _)) h = (tt, refl)
  step-balance asker waiting (frame other) h = (tt, refl)
  step-balance asker waiting ended h = (tt, refl)
  step-balance asker waiting (auth_accepted _) h = (tt, refl)
  step-balance asker waiting (auth_rejected _) h = (tt, refl)
  step-balance asker waiting (missed _) h = (tt, refl)
  step-balance asker waiting no_reply h = (tt, refl)
  step-balance asker waiting (outgoing _ _) h = (tt, refl)
  step-balance asker (asked cid key) (auth_accepted _) h = elim (Bool-cases (can_log cid)) [
    | inl ok ↦ rw ok (tt, ap (λ a. a ∷ []) h)
    | inr bad ↦ rw bad (tt, ap (λ a. a ∷ []) h)
  ]
  step-balance asker (asked _ _) (auth_rejected _) h = (tt, refl)
  step-balance asker (asked _ _) no_reply h = (tt, refl)
  step-balance asker (asked _ _) (frame _) h = (h, refl)
  step-balance asker (asked _ _) ended h = (h, refl)
  step-balance asker (asked _ _) (missed _) h = (h, refl)
  step-balance asker (asked _ _) (outgoing _ _) h = (h, refl)
  step-balance asker (joined _ _) (outgoing _ true) h = (tt, refl)
  step-balance asker (joined _ _) (outgoing _ false) h = (tt, refl)
  step-balance asker (joined _ _) ended h = (tt, refl)
  step-balance asker (joined cid key) (frame (text content)) h =
      next_message-balance asker cid key content (from_str content)
  step-balance asker (joined _ _) (frame close) h = (tt, refl)
  step-balance asker (joined _ _) (frame failed) h = (tt, refl)
  step-balance asker (joined _ _) (frame (ping _)) h = (tt, refl)
  step-balance asker (joined _ _) (frame other) h = (tt, refl)
  step-balance asker (joined _ _) (auth_accepted _) h = (tt, refl)
  step-balance asker (joined _ _) (auth_rejected _) h = (tt, refl)
  step-balance asker (joined _ _) (missed _) h = (tt, refl)
  step-balance asker (joined _ _) no_reply h = (tt, refl)
  step-balance asker (syncing _ _ _) (missed _) h = (tt, refl)
  step-balance asker (syncing _ _ _) no_reply h = (tt, refl)
  step-balance asker (syncing _ _ _) (frame _) h = (tt, refl)
  step-balance asker (syncing _ _ _) ended h = (tt, refl)
  step-balance asker (syncing _ _ _) (auth_accepted _) h = (tt, refl)
  step-balance asker (syncing _ _ _) (auth_rejected _) h = (tt, refl)
  step-balance asker (syncing _ _ _) (outgoing _ _) h = (tt, refl)
  step-balance asker closed e h = (tt, refl)
  step-balance asker (panicked _ _) e h = (tt, refl)

  run-balance :
      (events : List Event) (asker : Option Member) (phase : Phase)
      → IsAsker phase asker
      → held phase ++ admitted asker (run from_str required phase events).1
        ≡ disconnected (run from_str required phase events).1
          ++ held (run from_str required phase events).0
  unfolding run
  run-balance [] asker phase h = append-nil (held phase)
  run-balance (e ∷ events) asker phase h =
      let now = step from_str required phase e in
      let later = run from_str required now.0 events in
      let (still, balance) = step-balance asker phase e h in
      let asker' = last_asked asker now.1 in
      ap (λ ms. held phase ++ ms) (admitted-append asker now.1 later.1)
      ∙ sym (append_assoc (held phase) (admitted asker now.1) (admitted asker' later.1))
      ∙ ap (λ ms. ms ++ admitted asker' later.1) balance
      ∙ append_assoc (disconnected now.1) (held now.0) (admitted asker' later.1)
      ∙ ap (λ ms. disconnected now.1 ++ ms) (run-balance events asker' now.0 still)
      ∙ sym (append_assoc (disconnected now.1) (disconnected later.1) (held later.0))
      ∙ ap (λ ms. ms ++ held later.0) (sym (disconnected-append now.1 later.1))

  -- Whatever a connection receives, the members that have joined through it, one for each time that
  -- the client is told so, are in the order of joining those that it has disconnected, from the
  -- channel and with the key that they joined with, and after them the one that its last phase still
  -- holds. So one that has closed has undone each join once, and one that has panicked has not undone
  -- its last.
  pub connection_balance :
      (events : List Event)
      → admitted none (run from_str required waiting events).1
        ≡ disconnected (run from_str required waiting events).1
          ++ held (run from_str required waiting events).0
  connection_balance events = run-balance events none waiting tt

  run-panicked :
      (cid key : String) (events : List Event)
      → run from_str required (panicked cid key) events ≡ (panicked cid key, [])
  unfolding run step
  run-panicked cid key [] = refl
  run-panicked cid key (e ∷ events) = rw (run-panicked cid key events) refl

  -- A client whose channel id has no character boundary at its eighth byte is let into its channel,
  -- and then never leaves it: the connection panics before it can disconnect the client.
  pub unloggable_never_leaves :
      (cid key : String) (n : ℕ) (events : List Event)
      → can_log cid ≡ false
      → run from_str required (asked cid key) (auth_accepted n ∷ events)
        ≡ (panicked cid key, says (auth_ok n) ∷ [])
  unfolding run step
  unloggable_never_leaves cid key n events bad = rw (bad, run-panicked cid key events) refl
