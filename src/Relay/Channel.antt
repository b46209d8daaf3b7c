-- ===== src/Relay/Channel.antt =====
-- crates/agent-dash-relay/src/channel.rs: the task that owns the channels of the relay. A sender of
-- an `mpsc` channel is a number; a handler returns the new state and, in order, what it tried to
-- send. The results of `try_send` are ignored by the source. `now` is the clock, read once in each
-- call; counters keep the width of their Rust type.
pub mod Buffer
pub mod Invariant
pub mod Presence
pub mod Eviction
pub mod Sync
mod Tests
use agent_dash.Prelude.{
  ℕ, ◌+◌, ◌-◌, ◌%◌, ◌^◌, String, Bool, Option, none, some, List, [], ◌∷◌, ◌++◌, ◌==◌, ◌&&◌,
  if◌then◌else◌, ltb, not, length, filter, any, drop, is_empty, map,
}
use agent_dash.Table.{Table, lookup, insert, remove, retain}
use agent_dash.Relay.{BufferedMessage, RelayMessage, encrypted, peer_change, Codec}

abbrev pub u32_mod : ℕ
u32_mod = 2 ^ 32

abbrev pub u64_mod : ℕ
u64_mod = 2 ^ 64

pub record Peer : Type 0 where
  pub public_key : String
  pub tx : ℕ

pub record Channel : Type 0 where
  pub peers : List Peer
  pub buffer : List BufferedMessage
  pub next_seq : ℕ
  pub last_activity : ℕ

pub data ChannelCmd : Type 0 where
  auth : (channel_id public_key : String) (peer_tx : ℕ) → ChannelCmd
  forward : (channel_id sender_key message : String) → ChannelCmd
  sync : (channel_id : String) (since_seq : ℕ) → ChannelCmd
  disconnect : (channel_id public_key : String) → ChannelCmd

-- what a handler sends: to the `reply` of its command, or to a peer
pub data Output : Type 0 where
  joined : (peer_count : ℕ) → Output
  rejected : (message : String) → Output
  missed : (messages : List BufferedMessage) → Output
  to_peer : (tx : ℕ) (line : String) → Output

abbrev pub Channels : Type 0
Channels = Table Channel

unfoldable pub new : ℕ → Channel
new now = record { peers = []; buffer = []; next_seq = 1; last_activity = now }

abbrev pub touch : ℕ → Channel → Channel
touch now ch = record ch { last_activity = now }

-- `entry(channel_id).or_insert_with(Channel::new)`
unfoldable pub or_new : ℕ → Option Channel → Channel
or_new now none = new now
or_new now (some ch) = ch

abbrev pub has_key : String → List Peer → Bool
has_key k = any λ p. p.public_key == k

abbrev pub all_but : String → List Peer → List Peer
all_but k = filter λ p. not (p.public_key == k)

abbrev pub peer_count : List Peer → ℕ
peer_count ps = length ps % u32_mod

-- `try_send` of one line to each peer; nothing if the line could not be encoded
unfoldable pub send_all : Option String → List Peer → List Output
send_all none ps = []
send_all (some line) ps = map (λ p. to_peer p.tx line) ps

-- the buffering in `Forward`: only an encrypted message is kept, and the oldest falls out
unfoldable pub store : ℕ → ℕ → Option RelayMessage → Channel → Channel
store max_buffer now (some (encrypted _ ciphertext nonce)) ch =
    let bm : BufferedMessage = record {
      seq = ch.next_seq;
      ciphertext = ciphertext;
      nonce = nonce;
      timestamp = now;
    } in
    let buffer : List BufferedMessage = ch.buffer ++ bm ∷ [] in
    record ch {
      buffer = if ltb max_buffer (length buffer) then drop 1 buffer else buffer;
      next_seq = (ch.next_seq + 1) % u64_mod;
    }
store max_buffer now _ ch = ch

-- the messages that a `Sync` returns
abbrev pub newer : ℕ → List BufferedMessage → List BufferedMessage
newer since = filter λ m. ltb since m.seq

abbrev pub joins : Channel → String → ℕ → Channel
joins ch public_key tx = record ch {
  peers = ch.peers ++ record { public_key = public_key; tx = tx } ∷ [];
}

abbrev pub leaves : Channel → String → Channel
leaves ch public_key = record ch { peers = all_but public_key ch.peers }

module _ (codec : Codec) (max_buffer now : ℕ) where
  handle_auth : String → String → ℕ → Channels → Channels × List Output
  handle_auth cid key tx channels =
      let ch = touch now (or_new now (lookup cid channels)) in
      if has_key key ch.peers
      then (insert cid ch channels, rejected "public key already connected" ∷ [])
      else let ch' = joins ch key tx in
        (
          insert cid ch' channels,
          joined (peer_count ch'.peers)
              ∷ send_all (codec.to_string (peer_change "" (peer_count ch'.peers))) ch'.peers,
        )

  handle_forward : String → String → String → Channels → Channels × List Output
  handle_forward cid sender message channels = elim (lookup cid channels) [
    | none ↦ (channels, [])
    | some ch ↦ (
      insert cid (store max_buffer now (codec.from_str message) (touch now ch)) channels,
      send_all (some message) (all_but sender ch.peers),
    )
  ]

  unfoldable pub handle_sync : String → ℕ → Channels → Channels × List Output
  handle_sync cid since channels = elim (lookup cid channels) [
    | none ↦ (channels, missed [] ∷ [])
    | some ch ↦ (channels, missed (newer since ch.buffer) ∷ [])
  ]

  handle_disconnect : String → String → Channels → Channels × List Output
  handle_disconnect cid key channels = elim (lookup cid channels) [
    | none ↦ (channels, [])
    | some ch ↦
        let ch' = leaves ch key in
        (
          (if is_empty ch'.peers && is_empty ch'.buffer
              then remove cid channels
              else insert cid ch' channels),
          send_all (codec.to_string (peer_change cid (peer_count ch'.peers))) ch'.peers,
        )
  ]

  unfoldable pub handle_cmd : ChannelCmd → Channels → Channels × List Output
  unfolding handle_auth handle_forward handle_sync handle_disconnect
  handle_cmd (auth cid key tx) channels = handle_auth cid key tx channels
  handle_cmd (forward cid sender message) channels = handle_forward cid sender message channels
  handle_cmd (sync cid since) channels = handle_sync cid since channels
  handle_cmd (disconnect cid key) channels = handle_disconnect cid key channels

-- the test of `evict_stale`; `saturating_sub` is the subtraction of ℕ
abbrev pub is_stale : ℕ → ℕ → Channel → Bool
is_stale ttl now ch = is_empty ch.peers && ltb ttl (now - ch.last_activity)

unfoldable pub evict_stale : ℕ → ℕ → Channels → Channels
evict_stale ttl now channels = retain (λ _ ch. not (is_stale ttl now ch)) channels

-- what the `select!` of `run` waits for
pub data Event : Type 0 where
  cmd : ChannelCmd → Event
  tick : Event

module _ (codec : Codec) (max_buffer ttl : ℕ) where
  unfoldable pub step : ℕ → Event → Channels → Channels
  step now (cmd c) channels = (handle_cmd codec max_buffer now c channels).0
  step now tick channels = evict_stale ttl now channels

  -- the loop of `run`, over the commands and ticks as they arrive
  unfoldable pub run : List (ℕ × Event) → Channels → Channels
  run [] channels = channels
  run ((now, e) ∷ es) channels = run es (step now e channels)
