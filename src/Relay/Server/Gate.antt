-- ===== src/Relay/Server/Gate.antt =====
-- Who gets through a connection to the channel manager, and how they leave.
use agent_dash.Prelude.{
  String, Bool, true, false, ◌≡◌, refl, ◌∙◌, Option, List, [], ◌∷◌, ◌++◌, arith, ◌==◌, ◌&&◌, ◌||◌,
  not, any, Bool-cases, inl, inr, eq_refl,
}
use agent_dash.Relay.{auth, auth_ok, auth_error, encrypted, peer_change, sync, sync_response}
use agent_dash.Relay.Server.{
  text, close, failed, ping, other, Event, frame, ended, auth_accepted, auth_rejected, missed,
  no_reply, outgoing, Parsed, parsed, malformed, Phase, waiting, asked, joined, syncing, closed,
  panicked, Action, says, passes, pong, asks_auth, forwards, asks_sync, disconnects, admits,
  first_message, next_message, can_log, step, run,
}

abbrev pub is_command : Action → Bool
is_command (says _) = false
is_command (passes _) = false
is_command (pong _) = false
is_command (asks_auth _ _) = true
is_command (forwards _ _ _) = true
is_command (asks_sync _ _) = true
is_command (disconnects _ _) = true

-- a first message that the token check lets through
abbrev pub presents : Option String → Parsed → Bool
presents required (parsed (auth _ _ token)) = admits required token
presents required (parsed (auth_ok _)) = false
presents required (parsed (auth_error _)) = false
presents required (parsed (encrypted _ _ _)) = false
presents required (parsed (peer_change _ _)) = false
presents required (parsed (sync _ _)) = false
presents required (parsed (sync_response _ _)) = false
presents required (malformed _) = false

-- the phases of a client that is not let through
abbrev is_outside : Phase → Bool
is_outside waiting = true
is_outside closed = true
is_outside (asked _ _) = false
is_outside (joined _ _) = false
is_outside (syncing _ _ _) = false
is_outside (panicked _ _) = false

-- what a client of a channel may have the manager do: forward in its own name, sync, and leave
abbrev pub is_own : String → String → Action → Bool
is_own cid key (says _) = true
is_own cid key (passes _) = true
is_own cid key (pong _) = true
is_own cid key (asks_auth _ _) = false
is_own cid key (forwards c k _) = c == cid && k == key
is_own cid key (asks_sync _ _) = true
is_own cid key (disconnects c k) = c == cid && k == key

abbrev pub is_foreign : String → String → Action → Bool
is_foreign cid key a = not (is_own cid key a)

-- the phases of a client that has asked for a channel under a key
abbrev is_inside : String → String → Phase → Bool
is_inside cid key waiting = false
is_inside cid key (asked c k) = c == cid && k == key
is_inside cid key (joined c k) = c == cid && k == key
is_inside cid key (syncing c k _) = c == cid && k == key
is_inside cid key closed = true
is_inside cid key (panicked _ _) = true

any-append :
    {A : Type 0} (p : A → Bool) (xs ys : List A) → any p (xs ++ ys) ≡ (any p xs || any p ys)
any-append p [] ys = refl
any-append p (x ∷ xs) ys = ground (arith, any-append p xs ys)

module _ (from_str : String → Parsed) (required : Option String) where
  -- an event that carries no first message with the token
  abbrev pub is_stranger : Event → Bool
  is_stranger (frame (text content)) = not (presents required (from_str content))
  is_stranger (frame close) = true
  is_stranger (frame failed) = true
  is_stranger (frame (ping _)) = true
  is_stranger (frame other) = true
  is_stranger ended = true
  is_stranger (auth_accepted _) = true
  is_stranger (auth_rejected _) = true
  is_stranger (missed _) = true
  is_stranger no_reply = true
  is_stranger (outgoing _ _) = true

  abbrev pub all_strangers : List Event → Bool
  all_strangers [] = true
  all_strangers (e ∷ events) = is_stranger e && all_strangers events

  first_message-outside :
      (m : Parsed)
      → presents required m ≡ false
      → (is_outside (first_message required m).0 ≡ true)
        × (any is_command (first_message required m).1 ≡ false)
  unfolding first_message
  first_message-outside (parsed (auth cid key token)) h = rw h (refl, refl)
  first_message-outside (parsed (auth_ok _)) h = (refl, refl)
  first_message-outside (parsed (auth_error _)) h = (refl, refl)
  first_message-outside (parsed (encrypted _ _ _)) h = (refl, refl)
  first_message-outside (parsed (peer_change _ _)) h = (refl, refl)
  first_message-outside (parsed (sync _ _)) h = (refl, refl)
  first_message-outside (parsed (sync_response _ _)) h = (refl, refl)
  first_message-outside (malformed _) h = (refl, refl)

  step-outside :
      (phase : Phase) (e : Event)
      → is_outside phase ≡ true
      → is_stranger e ≡ true
      → (is_outside (step from_str required phase e).0 ≡ true)
        × (any is_command (step from_str required phase e).1 ≡ false)
  unfolding step
  step-outside waiting (frame (text content)) h s =
      first_message-outside (from_str content) (ground (arith, s))
  step-outside waiting (frame close) h s = (refl, refl)
  step-outside waiting (frame failed) h s = (refl, refl)
  step-outside waiting (frame (ping _)) h s = (refl, refl)
  step-outside waiting (frame other) h s = (refl, refl)
  step-outside waiting ended h s = (refl, refl)
  step-outside waiting (auth_accepted _) h s = (refl, refl)
  step-outside waiting (auth_rejected _) h s = (refl, refl)
  step-outside waiting (missed _) h s = (refl, refl)
  step-outside waiting no_reply h s = (refl, refl)
  step-outside waiting (outgoing _ _) h s = (refl, refl)
  step-outside closed e h s = (refl, refl)
  step-outside (asked _ _) e h s = ground arith
  step-outside (joined _ _) e h s = ground arith
  step-outside (syncing _ _ _) e h s = ground arith
  step-outside (panicked _ _) e h s = ground arith

  run-outside :
      (events : List Event) (phase : Phase)
      → is_outside phase ≡ true
      → all_strangers events ≡ true
      → any is_command (run from_str required phase events).1 ≡ false
  unfolding run
  run-outside [] phase h s = refl
  run-outside (e ∷ events) phase h s =
      let now = step from_str required phase e in
      let one = step-outside phase e h (ground (arith, s)) in
      let rest = run-outside events now.0 one.0 (ground (arith, s)) in
      any-append is_command now.1 (run from_str required now.0 events).1 ∙ rw (one.1, rest) refl

  -- A client that never sends an `Auth` that the token check admits reaches the channel manager with
  -- no command at all, whatever else it sends and whatever else happens.
  pub strangers_send_no_commands :
      (events : List Event)
      → all_strangers events ≡ true
      → any is_command (run from_str required waiting events).1 ≡ false
  strangers_send_no_commands events s = run-outside events waiting refl s

  next_message-inside :
      (cid key c k content : String) (m : Parsed)
      → (c == cid && k == key) ≡ true
      → (is_inside cid key (next_message c k content m).0 ≡ true)
        × (any (is_foreign cid key) (next_message c k content m).1 ≡ false)
  unfolding next_message
  next_message-inside cid key c k content (parsed (encrypted _ _ _)) h = (h, rw h refl)
  next_message-inside cid key c k content (parsed (sync _ _)) h = (h, refl)
  next_message-inside cid key c k content (parsed (auth _ _ _)) h = (h, refl)
  next_message-inside cid key c k content (parsed (auth_ok _)) h = (h, refl)
  next_message-inside cid key c k content (parsed (auth_error _)) h = (h, refl)
  next_message-inside cid key c k content (parsed (peer_change _ _)) h = (h, refl)
  next_message-inside cid key c k content (parsed (sync_response _ _)) h = (h, refl)
  next_message-inside cid key c k content (malformed _) h = (h, refl)

  step-inside :
      (cid key : String) (phase : Phase) (e : Event)
      → is_inside cid key phase ≡ true
      → (is_inside cid key (step from_str required phase e).0 ≡ true)
        × (any (is_foreign cid key) (step from_str required phase e).1 ≡ false)
  unfolding step
  step-inside cid key waiting e h = ground arith
  step-inside cid key (asked c k) (auth_accepted _) h = elim (Bool-cases (can_log c)) [
    | inl ok ↦ rw ok (h, refl)
    | inr bad ↦ rw bad (refl, refl)
  ]
  step-inside cid key (asked c k) (auth_rejected _) h = (refl, refl)
  step-inside cid key (asked c k) no_reply h = (refl, refl)
  step-inside cid key (asked c k) (frame _) h = (h, refl)
  step-inside cid key (asked c k) ended h = (h, refl)
  step-inside cid key (asked c k) (missed _) h = (h, refl)
  step-inside cid key (asked c k) (outgoing _ _) h = (h, refl)
  step-inside cid key (joined c k) (outgoing _ true) h = (h, refl)
  step-inside cid key (joined c k) (outgoing _ false) h = (refl, rw h refl)
  step-inside cid key (joined c k) ended h = (refl, rw h refl)
  step-inside cid key (joined c k) (frame (text content)) h =
      next_message-inside cid key c k content (from_str content) h
  step-inside cid key (joined c k) (frame close) h = (refl, rw h refl)
  step-inside cid key (joined c k) (frame failed) h = (refl, rw h refl)
  step-inside cid key (joined c k) (frame (ping _)) h = (h, refl)
  step-inside cid key (joined c k) (frame other) h = (h, refl)
  step-inside cid key (joined c k) (auth_accepted _) h = (h, refl)
  step-inside cid key (joined c k) (auth_rejected _) h = (h, refl)
  step-inside cid key (joined c k) (missed _) h = (h, refl)
  step-inside cid key (joined c k) no_reply h = (h, refl)
  step-inside cid key (syncing c k _) (missed _) h = (h, refl)
  step-inside cid key (syncing c k _) no_reply h = (h, refl)
  step-inside cid key (syncing c k _) (frame _) h = (h, refl)
  step-inside cid key (syncing c k _) ended h = (h, refl)
  step-inside cid key (syncing c k _) (auth_accepted _) h = (h, refl)
  step-inside cid key (syncing c k _) (auth_rejected _) h = (h, refl)
  step-inside cid key (syncing c k _) (outgoing _ _) h = (h, refl)
  step-inside cid key closed e h = (refl, refl)
  step-inside cid key (panicked _ _) e h = (refl, refl)

  run-inside :
      (cid key : String) (events : List Event) (phase : Phase)
      → is_inside cid key phase ≡ true
      → any (is_foreign cid key) (run from_str required phase events).1 ≡ false
  unfolding run
  run-inside cid key [] phase h = refl
  run-inside cid key (e ∷ events) phase h =
      let now = step from_str required phase e in
      let one = step-inside cid key phase e h in
      let rest = run-inside cid key events now.0 one.0 in
      any-append (is_foreign cid key) now.1 (run from_str required now.0 events).1
      ∙ rw (one.1, rest) refl

  -- A client that has asked for a channel under a key forwards and leaves under that channel and
  -- that key only, and asks for no other, whatever it sends.
  pub clients_act_in_their_own_name :
      (cid key : String) (events : List Event)
      → any (is_foreign cid key) (run from_str required (asked cid key) events).1 ≡ false
  clients_act_in_their_own_name cid key events =
      run-inside cid key events (asked cid key) (ground (arith, eq_refl cid, eq_refl key))
