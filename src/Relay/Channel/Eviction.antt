-- ===== src/Relay/Channel/Eviction.antt =====
-- `evict_stale`: which channels go, and what going costs their clients.
use agent_dash.Prelude.{
  ℕ, ◌+◌, ◌≤◌, ◌<◌, String, ◌≡◌, ◌≢◌, ◌⊎◌, refl, ◌∙◌, eq_refl, true, not, none, some, [], ◌∷◌,
  arith,
}
use agent_dash.Table.{lookup, insert, IsUnique}
use agent_dash.Table.Laws.{lookup-retain, lookup-insert}
use agent_dash.Relay.{encrypted, Codec}
use agent_dash.Relay.Channel.Sync.{sync_returns, forward_stores}
use agent_dash.Relay.Channel.{
  Channel, Channels, auth, forward, sync, missed, new, touch, or_new, store, joins, newer, is_stale,
  evict_stale, handle_cmd, handle_auth,
}

-- A channel is evicted exactly when nobody is connected to it and its last activity is more than
-- the time to live ago; every other channel is kept as it was.
pub evict_stale_lem :
    (ttl now : ℕ) (k : String) (ch : Channel) (channels : Channels)
    → IsUnique channels
    → lookup k channels ≡ some ch
    → ((lookup k (evict_stale ttl now channels) ≡ none)
        × (ch.peers ≡ [])
        × (ttl + ch.last_activity < now))
      ⊎ ((lookup k (evict_stale ttl now channels) ≡ some ch)
          × ((ch.peers ≢ []) ⊎ (now ≤ ttl + ch.last_activity)))
unfolding evict_stale
evict_stale_lem ttl now k ch channels u there =
    ground (arith, lookup-retain (λ _ c. not (is_stale ttl now c)) k channels u)

evicted :
    (ttl now : ℕ) (k : String) (ch : Channel) (channels : Channels)
    → IsUnique channels
    → lookup k channels ≡ some ch
    → is_stale ttl now ch ≡ true
    → lookup k (evict_stale ttl now channels) ≡ none
unfolding evict_stale
evicted ttl now k ch channels u there stale =
    ground (arith, lookup-retain (λ _ c. not (is_stale ttl now c)) k channels u)

module _ (codec : Codec) (max_buffer now : ℕ) where
  -- a channel that is created by a first peer
  abbrev founded : String → ℕ → Channel
  founded key tx = joins (touch now (new now)) key tx

  auth_creates :
      (cid key : String) (tx : ℕ) (channels : Channels)
      → lookup cid channels ≡ none
      → lookup cid (handle_cmd codec max_buffer now (auth cid key tx) channels).0
        ≡ some (founded key tx)
  unfolding handle_cmd or_new new
  auth_creates cid key tx channels absent =
      rw (absent, handle_auth) (lookup-insert cid cid (founded key tx) channels ∙ rw (eq_refl cid))

  first_stored :
      (c ciphertext nonce key : String) (tx : ℕ)
      → 0 < max_buffer
      → (store max_buffer now
          (some (encrypted c ciphertext nonce))
          (touch now (founded key tx))).buffer
        ≡ record { seq = 1; ciphertext = ciphertext; nonce = nonce; timestamp = now } ∷ []
  unfolding store new
  first_stored c ciphertext nonce key tx room = ground arith

  -- what a `Sync` returns from a channel that was just founded, once a message was forwarded in it
  sync-founded :
      (since : ℕ) (cid key sender message c ciphertext nonce : String) (tx : ℕ)
      (channels : Channels)
      → lookup cid channels ≡ some (founded key tx)
      → codec.from_str message ≡ some (encrypted c ciphertext nonce)
      → 0 < max_buffer
      → (handle_cmd codec max_buffer now
          (sync cid since)
          (handle_cmd codec max_buffer now (forward cid sender message) channels).0).1
        ≡ missed (
            newer since
              (record { seq = 1; ciphertext = ciphertext; nonce = nonce; timestamp = now } ∷ []))
          ∷ []
  sync-founded since cid key sender message c ciphertext nonce tx channels there parsed room =
      let held = store max_buffer now (codec.from_str message) (touch now (founded key tx)) in
      rw (forward_stores codec max_buffer now cid sender message (founded key tx) channels there) (
        sync_returns codec max_buffer now now since cid held (insert cid held channels)
          (lookup-insert cid cid held channels ∙ rw (eq_refl cid))
        ∙ rw parsed (rw (first_stored c ciphertext nonce key tx room) refl))

  -- the manager after the eviction, a first peer, and a message
  abbrev pub refounded : ℕ → ℕ → (cid key sender message : String) → ℕ → Channels → Channels
  refounded ttl now₀ cid key sender message tx channels =
      (handle_cmd codec max_buffer now (forward cid sender message)
        (handle_cmd codec max_buffer now (auth cid key tx) (evict_stale ttl now₀ channels)).0).0

  -- The numbers start again at 1 when an evicted channel is founded again: a client that asks for
  -- what came after any number it saw before gets nothing of a message that is buffered there, and
  -- that a `Sync` from 0 returns.
  pub evicted_sequence_restarts :
      (ttl now₀ since : ℕ) (cid key sender message c ciphertext nonce : String) (tx : ℕ)
      (ch : Channel) (channels : Channels)
      → IsUnique channels
      → lookup cid channels ≡ some ch
      → is_stale ttl now₀ ch ≡ true
      → codec.from_str message ≡ some (encrypted c ciphertext nonce)
      → 0 < max_buffer
      → 0 < since
      → (((handle_cmd codec max_buffer now
            (sync cid since)
            (refounded ttl now₀ cid key sender message tx channels)).1)
          ≡ missed [] ∷ [])
        × (((handle_cmd codec max_buffer now
              (sync cid 0)
              (refounded ttl now₀ cid key sender message tx channels)).1)
            ≡ missed
                (record { seq = 1; ciphertext = ciphertext; nonce = nonce; timestamp = now } ∷ [])
              ∷ [])
  evicted_sequence_restarts ttl now₀ since cid key sender message c ciphertext nonce tx ch channels
        u there stale parsed room pos =
      let gone : lookup cid (evict_stale ttl now₀ channels) ≡ none =
        evicted ttl now₀ cid ch channels u there stale in
      let founds = auth_creates cid key tx (evict_stale ttl now₀ channels) gone in
      let returns = λ (s : ℕ).
        sync-founded s cid key sender message c ciphertext nonce tx _ founds parsed room in
      (returns since ∙ ground arith, returns 0)
