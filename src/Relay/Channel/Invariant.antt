-- ===== src/Relay/Channel/Invariant.antt =====
-- What holds of every channel, whatever commands and ticks arrive.
use mathlib.Core.Path.{subst}
use agent_dash.Prelude.{
  ℕ, ◌+◌, ◌≤◌, ◌<◌, String, ◌≡◌, refl, Bool, false, ◌&&◌, Option, none, some, List, [], ◌∷◌, ◌++◌,
  arith, ◌==◌, eq_iff, length, Bool-cases, Option-cases, inl, inr, is_empty,
}
use native.Mathlib.Nat.{add-zero}
use agent_dash.Table.{lookup, insert, remove, retain, IsUnique}
use agent_dash.Table.Laws.{
  lookup-insert, lookup-remove, lookup-retain, insert-IsUnique, remove-IsUnique, retain-IsUnique,
}
use agent_dash.Relay.{RelayMessage, Codec}
use agent_dash.Relay.Channel.{
  Peer, Channel, Channels, ChannelCmd, auth, forward, sync, disconnect, new, touch, or_new, has_key,
  all_but, store, joins, leaves, handle_auth, handle_forward, handle_sync, handle_disconnect,
  handle_cmd, evict_stale, Event, cmd, tick, step, run, u64_mod,
}
use agent_dash.Relay.Channel.Buffer.{IsRing, store-IsRing, store-next_seq}

-- No public key is connected twice.
abbrev pub UniqueKeys : List Peer → Type 0
UniqueKeys [] = Unit
UniqueKeys (p ∷ ps) = (has_key p.public_key ps ≡ false) × UniqueKeys ps

has_key-concat :
    (k : String) (ps : List Peer) (p : Peer)
    → has_key k ps ≡ false
    → (p.public_key == k) ≡ false
    → has_key k (ps ++ p ∷ []) ≡ false
has_key-concat k [] p h e = ground arith
has_key-concat k (q ∷ ps) p h e = ground (arith, has_key-concat k ps p)

UniqueKeys-concat :
    (ps : List Peer) (p : Peer)
    → has_key p.public_key ps ≡ false
    → UniqueKeys ps
    → UniqueKeys (ps ++ p ∷ [])
UniqueKeys-concat [] p h u = (refl, tt)
UniqueKeys-concat (q ∷ ps) p h u = ground (
  arith,
  has_key-concat q.public_key ps p,
  UniqueKeys-concat ps p,
  eq_iff p.public_key q.public_key,
  eq_iff q.public_key p.public_key,
)

has_key-all_but :
    (j k : String) (ps : List Peer) → has_key j ps ≡ false → has_key j (all_but k ps) ≡ false
has_key-all_but j k [] h = refl
has_key-all_but j k (q ∷ ps) h = ground (arith, has_key-all_but j k ps)

UniqueKeys-all_but : (k : String) (ps : List Peer) → UniqueKeys ps → UniqueKeys (all_but k ps)
UniqueKeys-all_but k [] u = tt
UniqueKeys-all_but k (q ∷ ps) u =
    ground (arith, UniqueKeys-all_but k ps u.1, has_key-all_but q.public_key k ps u.0)

pub record IsGood (max_buffer bound : ℕ) (ch : Channel) : Type 0 where
  pub ring : IsRing max_buffer ch
  pub small : ch.next_seq ≤ bound
  pub keys : UniqueKeys ch.peers

-- `bound` limits the sequence numbers given out so far.
pub record IsSound (max_buffer bound : ℕ) (channels : Channels) : Type 0 where
  pub unique : IsUnique channels
  pub each : (k : String) (ch : Channel) → lookup k channels ≡ some ch → IsGood max_buffer bound ch

module _ {max_buffer bound : ℕ} where
  insert-IsSound :
      (cid : String) (ch : Channel) (channels : Channels)
      → IsGood max_buffer bound ch
      → IsSound max_buffer bound channels
      → IsSound max_buffer bound (insert cid ch channels)
  insert-IsSound cid ch channels good s = record {
    unique = insert-IsUnique cid ch channels s.unique;
    each = λ k c e. elim (Bool-cases (cid == k)) [
      | inl same ↦
          subst (IsGood max_buffer bound) (ground (arith, lookup-insert cid k ch channels)) good
      | inr other ↦ s.each k c (ground (arith, lookup-insert cid k ch channels))
    ];
  }

  remove-IsSound :
      (cid : String) (channels : Channels)
      → IsSound max_buffer bound channels
      → IsSound max_buffer bound (remove cid channels)
  remove-IsSound cid channels s = record {
    unique = remove-IsUnique cid channels s.unique;
    each = λ k c e. s.each k c (ground (arith, lookup-remove cid k channels));
  }

  retain-IsSound :
      (p : String → Channel → Bool) (channels : Channels)
      → IsSound max_buffer bound channels
      → IsSound max_buffer bound (retain p channels)
  retain-IsSound p channels s = record {
    unique = retain-IsUnique p channels s.unique;
    each = λ k c e. elim (Option-cases (lookup k channels)) [
      | inl absent ↦
          let gone : lookup k (retain p channels) ≡ none =
            ground (arith, lookup-retain p k channels s.unique) in
          cc gone
      | inr (c', there) ↦ s.each k c (ground (arith, lookup-retain p k channels s.unique))
    ];
  }

  IsSound-mono :
      (channels : Channels)
      → IsSound max_buffer bound channels
      → IsSound max_buffer (bound + 1) channels
  IsSound-mono channels s = record {
    unique = s.unique;
    each = λ k c e.
        let g = s.each k c e in
        record { ring = g.ring; small = omega (arith, g.small); keys = g.keys };
  }

  or_new-IsGood :
      (now : ℕ) (cid : String) (channels : Channels)
      → 0 < bound
      → IsSound max_buffer bound channels
      → IsGood max_buffer bound (touch now (or_new now (lookup cid channels)))
  unfolding or_new new
  or_new-IsGood now cid channels pos s = elim (Option-cases (lookup cid channels)) [
    | inl absent ↦
        rw (absent, or_new)
          (record {
            ring = record { gapless = tt; bounded = omega arith };
            small = omega arith;
            keys = tt;
          })
    | inr (ch, there) ↦
        let g = s.each cid ch there in
        rw (there, or_new)
          (record {
            ring = record { gapless = g.ring.gapless; bounded = g.ring.bounded };
            small = g.small;
            keys = g.keys;
          })
  ]

pub peers-store :
    (max_buffer now : ℕ) (msg : Option RelayMessage) (ch : Channel)
    → (store max_buffer now msg ch).peers ≡ ch.peers
unfolding store
peers-store max_buffer now none ch = refl
peers-store max_buffer now (some (RelayMessage.encrypted cid ct n)) ch = refl
peers-store max_buffer now (some _) ch = refl

channels-sync :
    (codec : Codec) (max_buffer now : ℕ) (cid : String) (since : ℕ) (channels : Channels)
    → (handle_sync codec max_buffer now cid since channels).0 ≡ channels
unfolding handle_sync
channels-sync codec max_buffer now cid since channels = ground arith

pub IsSound-empty : {max_buffer bound : ℕ} → IsSound max_buffer bound []
unfolding lookup
IsSound-empty = record { unique = tt; each = λ k ch e. cc }

module _ (codec : Codec) (max_buffer bound now : ℕ) where
  auth-IsSound :
      (cid key : String) (tx : ℕ) (channels : Channels)
      → 0 < bound
      → IsSound max_buffer bound channels
      → IsSound max_buffer bound (handle_auth codec max_buffer now cid key tx channels).0
  unfolding handle_auth
  auth-IsSound cid key tx channels pos s =
      let ch : Channel = touch now (or_new now (lookup cid channels)) in
      let g = or_new-IsGood now cid channels pos s in
      elim (Bool-cases (has_key key ch.peers)) [
        | inl twice ↦ rw twice (insert-IsSound cid ch channels g s)
        | inr fresh ↦ rw fresh (
            insert-IsSound cid (joins ch key tx) channels
              (record {
                ring = record { gapless = g.ring.gapless; bounded = g.ring.bounded };
                small = g.small;
                keys = UniqueKeys-concat ch.peers _ fresh g.keys;
              })
              s)
      ]

  disconnect-IsSound :
      (cid key : String) (channels : Channels)
      → IsSound max_buffer bound channels
      → IsSound max_buffer bound (handle_disconnect codec max_buffer now cid key channels).0
  unfolding handle_disconnect
  disconnect-IsSound cid key channels s = elim (Option-cases (lookup cid channels)) [
    | inl absent ↦ rw (absent, handle_disconnect) s
    | inr (ch, there) ↦
        let g = s.each cid ch there in
        let ch' : Channel = leaves ch key in
        rw (there, handle_disconnect)
          (elim (Bool-cases (is_empty ch'.peers && is_empty ch'.buffer)) [
            | inl idle ↦ rw idle (remove-IsSound cid channels s)
            | inr used ↦ rw used (
                insert-IsSound cid ch' channels
                  (record {
                    ring = record { gapless = g.ring.gapless; bounded = g.ring.bounded };
                    small = g.small;
                    keys = UniqueKeys-all_but key ch.peers g.keys;
                  })
                  s)
          ])
  ]

  store-IsGood :
      (msg : Option RelayMessage) (ch : Channel)
      → bound + 1 < u64_mod
      → IsGood max_buffer bound ch
      → IsGood max_buffer (bound + 1) (store max_buffer now msg (touch now ch))
  store-IsGood msg ch room g =
      let ring : IsRing max_buffer (touch now ch) = record {
        gapless = g.ring.gapless;
        bounded = g.ring.bounded;
      } in
      record {
        ring = store-IsRing max_buffer now msg (touch now ch) (omega (arith, g.small)) ring;
        small = omega (
          arith,
          store-next_seq max_buffer now msg (touch now ch) (omega (arith, g.small)),
          g.small,
        );
        keys = rw (peers-store max_buffer now msg (touch now ch)) g.keys;
      }

  forward-IsSound :
      (cid sender message : String) (channels : Channels)
      → bound + 1 < u64_mod
      → IsSound max_buffer bound channels
      → IsSound max_buffer
          (bound + 1)
          (handle_forward codec max_buffer now cid sender message channels).0
  unfolding handle_forward
  forward-IsSound cid sender message channels room s = elim (Option-cases (lookup cid channels)) [
    | inl absent ↦ rw (absent, handle_forward) (IsSound-mono channels s)
    | inr (ch, there) ↦
        rw (there, handle_forward)
          (insert-IsSound cid _ channels
            (store-IsGood (codec.from_str message) ch room (s.each cid ch there))
            (IsSound-mono channels s))
  ]

  cmd-IsSound :
      (c : ChannelCmd) (channels : Channels)
      → 0 < bound
      → bound + 1 < u64_mod
      → IsSound max_buffer bound channels
      → IsSound max_buffer (bound + 1) (handle_cmd codec max_buffer now c channels).0
  unfolding handle_cmd
  cmd-IsSound (auth cid key tx) channels pos room s =
      IsSound-mono _ (auth-IsSound cid key tx channels pos s)
  cmd-IsSound (forward cid sender message) channels pos room s =
      forward-IsSound cid sender message channels room s
  cmd-IsSound (sync cid since) channels pos room s =
      rw (channels-sync codec max_buffer now cid since channels) (IsSound-mono channels s)
  cmd-IsSound (disconnect cid key) channels pos room s =
      IsSound-mono _ (disconnect-IsSound cid key channels s)

module _ (codec : Codec) (max_buffer ttl : ℕ) where
  step-IsSound :
      (bound now : ℕ) (e : Event) (channels : Channels)
      → 0 < bound
      → bound + 1 < u64_mod
      → IsSound max_buffer bound channels
      → IsSound max_buffer (bound + 1) (step codec max_buffer ttl now e channels)
  unfolding step evict_stale
  step-IsSound bound now (cmd c) channels pos room s =
      cmd-IsSound codec max_buffer bound now c channels pos room s
  step-IsSound bound now tick channels pos room s = IsSound-mono _ (retain-IsSound _ channels s)

  run_from-IsSound :
      (bound : ℕ) (es : List (ℕ × Event)) (channels : Channels)
      → 0 < bound
      → bound + length es < u64_mod
      → IsSound max_buffer bound channels
      → IsSound max_buffer (bound + length es) (run codec max_buffer ttl es channels)
  unfolding run
  run_from-IsSound bound [] channels pos room s = rw add-zero s
  run_from-IsSound bound ((now, e) ∷ es) channels pos room s =
      let shift : bound + length ((now, e) ∷ es) ≡ bound + 1 + length es = omega arith in
      rw shift (
        run_from-IsSound (bound + 1) es _ (omega arith) (omega arith)
          (step-IsSound bound now e channels pos (omega arith) s))

  -- After fewer than 2^64 - 1 commands and ticks on an empty manager, every channel's buffer is
  -- within the bound and gap-free up to its next number, no number has wrapped, and no public key
  -- is connected twice to a channel.
  pub run-IsSound :
      (es : List (ℕ × Event))
      → 1 + length es < u64_mod
      → IsSound max_buffer (1 + length es) (run codec max_buffer ttl es [])
  run-IsSound es room = run_from-IsSound 1 es [] (omega arith) room IsSound-empty
