-- ===== src/Connector/Sealed.antt =====
-- What the bridge lets the relay see.
use agent_dash.Prelude.{
  ℕ, String, Option, some, List, [], ◌∷◌, ◌==◌, ◌≡◌, refl, All, ◌⊎◌, inl, inr, Option-cases,
  Bool-cases, both_branches, not, if◌then◌else◌, Bool,
}
use agent_dash.Messages.Strings.{trim}
use agent_dash.Relay.{RelayMessage, encrypted, auth_ok, auth_error}
use agent_dash.Connector.{
  World, RelayConfig, Failure, Frame, text, pong, Arrival, daemon_line, daemon_error, daemon_eof,
  relay_text, relay_ping, relay_close, relay_other, relay_failure, relay_eof, Handshake, Bridge,
  fail, seal, open_message, handle_relay, write_error, step, run, greeted, await_auth, auth_json,
  greet, run_bridge,
}

module _ (world : World) (config : RelayConfig) where
  -- an encrypted message, in the channel of the pairing
  abbrev pub IsSealed : String → Type 0
  IsSealed json =
      (nonce : List ℕ) × (message : List ℕ) × (ciphertext : List ℕ) × (world.encrypt nonce message
        ≡ some ciphertext)
      × (world.codec.to_string
            (encrypted config.channel_id (world.encode ciphertext) (world.encode nonce))
          ≡ some json)

  -- what may be sent to the relay: the authentication, encrypted messages and answers to pings
  abbrev pub IsAllowed : Frame → Type 0
  IsAllowed (text json) = (auth_json world config ≡ some json) ⊎ IsSealed json
  IsAllowed (pong payload) = Unit

  seal-cases :
      (nonce : List ℕ) (line : String)
      → ((failure : Failure) × (seal world config nonce line ≡ inl failure))
        ⊎ ((frame : Frame) × (seal world config nonce line ≡ inr frame) × IsAllowed frame)
  unfolding seal
  seal-cases nonce line = elim (Option-cases (world.encrypt nonce (world.as_bytes line))) [
    | inl e ↦ rw e (inl (_, refl))
    | inr (ciphertext, e) ↦
        (elim (Option-cases (
          world.codec.to_string
            (encrypted config.channel_id (world.encode ciphertext) (world.encode nonce)))) [
              | inl h ↦ rw (e, h) (inl (_, refl))
              | inr (json, h) ↦
                  rw (e, h)
                    (inr (text json, refl, inr (nonce, world.as_bytes line, ciphertext, e, h)))
            ])
  ]

  abbrev IsPrivate : Bridge → Type 0
  IsPrivate b = All IsAllowed b.to_relay

  handle_relay-IsPrivate :
      (message : Option RelayMessage) (is_written : Bool) (b : Bridge)
      → IsPrivate b
      → IsPrivate (handle_relay world config message is_written b)
  unfolding handle_relay
  handle_relay-IsPrivate (some (encrypted channel_id ciphertext nonce)) is_written b h =
      elim (open_message world config ciphertext nonce)
        as (λ o. IsPrivate (elim o [
          | inl failure ↦ fail failure b
          | inr line ↦
              if is_written then record b { to_daemon = line ∷ b.to_daemon } else fail write_error b
        ])) [ inl failure ↦ h | inr line ↦ both_branches IsPrivate is_written h h ]
  handle_relay-IsPrivate _ is_written b h = h

  step-IsPrivate : (a : Arrival) (b : Bridge) → IsPrivate b → IsPrivate (step world config a b)
  unfolding step
  step-IsPrivate (daemon_line nonce line is_sent) b h = elim (Bool-cases (trim line == "")) [
    | inl empty ↦ rw (empty, step) h
    | inr full ↦ (elim (seal-cases nonce (trim line)) [
      | inl (failure, e) ↦ rw (full, e, step) h
      | inr (frame, e, allowed) ↦
          rw (full, e, step) (both_branches IsPrivate is_sent (allowed, h) h)
    ])
  ]
  step-IsPrivate daemon_error b h = h
  step-IsPrivate daemon_eof b h = h
  step-IsPrivate (relay_text json is_written) b h =
      handle_relay-IsPrivate (world.codec.from_str json) is_written b h
  step-IsPrivate (relay_ping payload) b h = (tt, h)
  step-IsPrivate relay_close b h = h
  step-IsPrivate relay_other b h = h
  step-IsPrivate relay_failure b h = h
  step-IsPrivate relay_eof b h = h

  run-IsPrivate :
      (arrivals : List Arrival) (b : Bridge) → IsPrivate b → IsPrivate (run world config arrivals b)
  unfolding run
  run-IsPrivate [] b h = h
  run-IsPrivate (a ∷ arrivals) b h = elim (Option-cases b.ending) [
    | inl e ↦ rw (e, run) (run-IsPrivate arrivals (step world config a b) (step-IsPrivate a b h))
    | inr (ending, e) ↦ rw (e, run) h
  ]

  greeted-IsPrivate :
      (message : Option RelayMessage) (b : Bridge)
      → IsPrivate b
      → IsPrivate (greeted world config message b)
  unfolding greeted
  greeted-IsPrivate (some (auth_ok peer_count)) b h = h
  greeted-IsPrivate (some (auth_error message)) b h = h
  greeted-IsPrivate _ b h = h

  await_auth-IsPrivate :
      (a : Arrival) (b : Bridge) → IsPrivate b → IsPrivate (await_auth world config a b)
  unfolding await_auth
  await_auth-IsPrivate (relay_text json is_written) b h =
      greeted-IsPrivate (world.codec.from_str json) b h
  await_auth-IsPrivate relay_eof b h = h
  await_auth-IsPrivate relay_failure b h = h
  await_auth-IsPrivate _ b h = h

  greet-IsPrivate : (h : Handshake) → IsPrivate (greet world config h)
  unfolding greet
  greet-IsPrivate h = both_branches IsPrivate (not h.daemon_connects) tt (
      both_branches IsPrivate (not h.subscribes) tt (
        both_branches IsPrivate (not h.relay_connects) tt
          (elim (Option-cases (auth_json world config)) [
            | inl e ↦ rw e tt
            | inr (json, e) ↦ rw e (
                both_branches IsPrivate (not h.auth_is_sent) tt
                  (await_auth-IsPrivate h.response _ (inl e, tt)))
          ])))

  -- Whatever the daemon and the relay send, all that the bridge sends to the relay is its
  -- authentication, answers to pings, and messages that it has encrypted, in its own channel.
  pub run_bridge-IsPrivate :
      (h : Handshake) (arrivals : List Arrival)
      → All IsAllowed (run_bridge world config h arrivals).to_relay
  run_bridge-IsPrivate h arrivals =
      run-IsPrivate arrivals (greet world config h) (greet-IsPrivate h)
