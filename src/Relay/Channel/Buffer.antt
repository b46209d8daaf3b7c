-- ===== src/Relay/Channel/Buffer.antt =====
-- The ring buffer of a channel: sequence numbers without gaps, and what a `Sync` returns of it.
use Prim.Native.Nat.{min}
use agent_dash.Prelude.{
  ℕ, ◌+◌, ◌-◌, ◌%◌, ◌≤◌, ◌<◌, ◌≡◌, Option, none, some, List, [], ◌∷◌, ◌++◌, arith, if◌then◌else◌,
  ltb, length, length-append, drop, Bool-cases, inl, inr,
}
use agent_dash.Relay.{
  BufferedMessage, RelayMessage, auth, auth_ok, auth_error, encrypted, peer_change, sync,
  sync_response,
}
use agent_dash.Relay.Channel.{Channel, store, newer, u64_mod}

-- The numbers of the messages are the last ones before `n`, in order and without a gap.
abbrev pub EndsAt : List BufferedMessage → ℕ → Type 0
EndsAt [] n = Unit
EndsAt (m ∷ ms) n = (m.seq + length (m ∷ ms) ≡ n) × EndsAt ms n

pub EndsAt-push :
    (ms : List BufferedMessage) (m : BufferedMessage)
    → EndsAt ms m.seq
    → EndsAt (ms ++ m ∷ []) (m.seq + 1)
EndsAt-push [] m h = (omega arith, tt)
EndsAt-push (x ∷ ms) m h = (omega (arith, length-append {0} ms (m ∷ []), h.0), EndsAt-push ms m h.1)

pub EndsAt-drop : (ms : List BufferedMessage) (n : ℕ) → EndsAt ms n → EndsAt (drop 1 ms) n
EndsAt-drop [] n h = tt
EndsAt-drop (x ∷ ms) n h = h.1

length-drop_one : (ms : List BufferedMessage) → length (drop 1 ms) ≡ length ms - 1
length-drop_one [] = omega arith
length-drop_one (x ∷ ms) = omega arith

-- The messages after `since` are the last ones of the buffer: as many as were missed, or all that
-- the buffer still holds.
pub newer_lem :
    (since n : ℕ) (ms : List BufferedMessage)
    → EndsAt ms n
    → EndsAt (newer since ms) n × (length (newer since ms) ≡ min (length ms) (n - 1 - since))
newer_lem since n [] h = (tt, omega arith)
newer_lem since n (m ∷ ms) h = ground (arith, newer_lem since n ms h.1)

pub store-next_seq :
    (max_buffer now : ℕ) (msg : Option RelayMessage) (ch : Channel)
    → ch.next_seq + 1 < u64_mod
    → (store max_buffer now msg ch).next_seq ≤ ch.next_seq + 1
unfolding store
store-next_seq max_buffer now none ch h = omega arith
store-next_seq max_buffer now (some (encrypted cid ct n)) ch h = omega arith
store-next_seq max_buffer now (some (auth cid k t)) ch h = omega arith
store-next_seq max_buffer now (some (auth_ok n)) ch h = omega arith
store-next_seq max_buffer now (some (auth_error m)) ch h = omega arith
store-next_seq max_buffer now (some (peer_change cid n)) ch h = omega arith
store-next_seq max_buffer now (some (sync cid s)) ch h = omega arith
store-next_seq max_buffer now (some (sync_response cid ms)) ch h = omega arith

-- The buffer is within its bound and gap-free up to `next_seq`.
pub record IsRing (max_buffer : ℕ) (ch : Channel) : Type 0 where
  pub gapless : EndsAt ch.buffer ch.next_seq
  pub bounded : length ch.buffer ≤ max_buffer

push-IsRing :
    (max_buffer : ℕ) (ms : List BufferedMessage) (m : BufferedMessage)
    → EndsAt ms m.seq
    → length ms ≤ max_buffer
    → EndsAt
        (if ltb max_buffer (length (ms ++ m ∷ [])) then drop 1 (ms ++ m ∷ []) else ms ++ m ∷ [])
        (m.seq + 1)
      × (length
            (if ltb max_buffer (length (ms ++ m ∷ [])) then drop 1 (ms ++ m ∷ []) else ms ++ m ∷ [])
          ≤ max_buffer)
push-IsRing max_buffer ms m ends fits = elim (Bool-cases (ltb max_buffer (length (ms ++ m ∷ [])))) [
  | inl full ↦ rw full (
    EndsAt-drop (ms ++ m ∷ []) (m.seq + 1) (EndsAt-push ms m ends),
    omega (arith, length-drop_one (ms ++ m ∷ []), length-append {0} ms (m ∷ [])),
  )
  | inr room ↦ rw room (EndsAt-push ms m ends, ground arith)
]

-- Buffering a message keeps the buffer within its bound and its numbers without a gap.
pub store-IsRing :
    (max_buffer now : ℕ) (msg : Option RelayMessage) (ch : Channel)
    → ch.next_seq + 1 < u64_mod
    → IsRing max_buffer ch
    → IsRing max_buffer (store max_buffer now msg ch)
unfolding store
store-IsRing max_buffer now (some (encrypted cid ct n)) ch small ring =
    let new : BufferedMessage = record {
      seq = ch.next_seq;
      ciphertext = ct;
      nonce = n;
      timestamp = now;
    } in
    let (ends, fits) = push-IsRing max_buffer ch.buffer new ring.gapless ring.bounded in
    let same : (ch.next_seq + 1) % u64_mod ≡ ch.next_seq + 1 = omega arith in
    record { gapless = rw same ends; bounded = fits }
store-IsRing max_buffer now none ch small ring = ring
store-IsRing max_buffer now (some (auth cid k t)) ch small ring = ring
store-IsRing max_buffer now (some (auth_ok n)) ch small ring = ring
store-IsRing max_buffer now (some (auth_error m)) ch small ring = ring
store-IsRing max_buffer now (some (peer_change cid n)) ch small ring = ring
store-IsRing max_buffer now (some (sync cid s)) ch small ring = ring
store-IsRing max_buffer now (some (sync_response cid ms)) ch small ring = ring
