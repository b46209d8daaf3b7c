-- ===== src/Relay/Channel/Sync.antt =====
-- `Sync`: catching up on missed messages.
use agent_dash.Prelude.{
  ℕ, ◌+◌, ◌-◌, ◌≤◌, ◌<◌, String, ◌≡◌, refl, ap, ◌∙◌, some, List, [], ◌∷◌, ◌++◌, arith, eq_refl,
  if◌then◌else◌, ltb, length, drop,
}
use agent_dash.Table.{lookup, insert}
use agent_dash.Table.Laws.{lookup-insert}
use agent_dash.Relay.{BufferedMessage, encrypted, Codec}
use agent_dash.Relay.Channel.{
  Channel, Channels, forward, sync, missed, touch, store, newer, handle_forward, handle_sync,
  handle_cmd,
}
use agent_dash.Relay.Channel.Buffer.{EndsAt}
use agent_dash.Relay.Channel.Invariant.{IsGood}

newer-concat :
    (since : ℕ) (ms : List BufferedMessage) (m : BufferedMessage)
    → newer since (ms ++ m ∷ []) ≡ newer since ms ++ newer since (m ∷ [])
newer-concat since [] m = refl
newer-concat since (x ∷ ms) m = ground (arith, newer-concat since ms m)

newer_none :
    (since n : ℕ) (ms : List BufferedMessage) → EndsAt ms n → n ≤ since + 1 → newer since ms ≡ []
newer_none since n [] h le = refl
newer_none since n (m ∷ ms) h le = ground (arith, newer_none since n ms h.1)

-- What is newer than all that was there is the pushed message, whether or not one falls out.
newer-push :
    (max_buffer since : ℕ) (ms : List BufferedMessage) (m : BufferedMessage)
    → EndsAt ms m.seq
    → 0 < max_buffer
    → m.seq ≡ since + 1
    → newer since
        (if ltb max_buffer (length (ms ++ m ∷ [])) then drop 1 (ms ++ m ∷ []) else ms ++ m ∷ [])
      ≡ m ∷ []
newer-push max_buffer since [] m ends room next = ground arith
newer-push max_buffer since (x ∷ ms) m ends room next =
    let old = newer_none since m.seq ms ends.1 (omega arith) in
    let all = newer-concat since ms m in
    ground (arith, old, all, newer_none since m.seq (x ∷ ms) ends (omega arith))

module _ (codec : Codec) (max_buffer now : ℕ) where
  pub sync_returns :
      (now' since : ℕ) (cid : String) (ch : Channel) (channels : Channels)
      → lookup cid channels ≡ some ch
      → (handle_cmd codec max_buffer now' (sync cid since) channels).1
        ≡ missed (newer since ch.buffer) ∷ []
  unfolding handle_cmd
  sync_returns now' since cid ch channels there = rw (there, handle_sync)

  pub forward_stores :
      (cid sender message : String) (ch : Channel) (channels : Channels)
      → lookup cid channels ≡ some ch
      → (handle_cmd codec max_buffer now (forward cid sender message) channels).0
        ≡ insert cid (store max_buffer now (codec.from_str message) (touch now ch)) channels
  unfolding handle_cmd
  forward_stores cid sender message ch channels there = rw (there, handle_forward)

  newer-store :
      (c ciphertext nonce : String) (ch : Channel)
      → EndsAt ch.buffer ch.next_seq
      → 0 < max_buffer
      → 0 < ch.next_seq
      → newer
          (ch.next_seq - 1)
          (store max_buffer now (some (encrypted c ciphertext nonce)) (touch now ch)).buffer
        ≡ record { seq = ch.next_seq; ciphertext = ciphertext; nonce = nonce; timestamp = now } ∷ []
  unfolding store
  newer-store c ciphertext nonce ch ends room pos =
      newer-push max_buffer (ch.next_seq - 1) ch.buffer _ ends room (omega arith)

  -- A client that had seen everything before an encrypted message was forwarded gets exactly that
  -- message from its next `Sync`, with the channel's next number.
  pub sync-forward :
      (bound now' : ℕ) (cid sender message c ciphertext nonce : String) (ch : Channel)
      (channels : Channels)
      → IsGood max_buffer bound ch
      → lookup cid channels ≡ some ch
      → codec.from_str message ≡ some (encrypted c ciphertext nonce)
      → 0 < max_buffer
      → 0 < ch.next_seq
      → (handle_cmd codec max_buffer now'
          (sync cid (ch.next_seq - 1))
          (handle_cmd codec max_buffer now (forward cid sender message) channels).0).1
        ≡ missed (
            record { seq = ch.next_seq; ciphertext = ciphertext; nonce = nonce; timestamp = now }
            ∷ [])
          ∷ []
  sync-forward bound now' cid sender message c ciphertext nonce ch channels good there parsed room
        pos =
      let held = store max_buffer now (codec.from_str message) (touch now ch) in
      rw (forward_stores cid sender message ch channels there) (
        sync_returns now' (ch.next_seq - 1) cid held (insert cid held channels)
          (lookup-insert cid cid held channels ∙ rw (eq_refl cid))
        ∙ ap (λ ms. missed ms ∷ [])
            (rw parsed (newer-store c ciphertext nonce ch good.ring.gapless room pos)))
