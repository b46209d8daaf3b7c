-- ===== src/Relay/Channel/Presence.antt =====
-- Who is connected to a channel, as the clients can tell from the commands alone.
use agent_dash.Prelude.{
  ℕ, String, ◌≡◌, refl, ◌∙◌, ap, not, ◌&&◌, Option, none, some, List, [], ◌∷◌, ◌++◌, arith, ◌==◌,
  eq_iff, if◌then◌else◌, Bool-cases, Option-cases, inl, inr, is_empty, map,
}
use agent_dash.Table.{lookup, IsUnique}
use agent_dash.Table.Laws.{
  lookup-insert, lookup-remove, lookup-retain, insert-IsUnique, remove-IsUnique, retain-IsUnique,
}
use agent_dash.Relay.{Codec}
use agent_dash.Relay.Channel.{
  Peer, Channel, Channels, ChannelCmd, auth, forward, sync, disconnect, to_peer, send_all, new,
  touch, or_new, has_key, all_but, store, joins, leaves, handle_auth, handle_forward, handle_sync,
  handle_disconnect, handle_cmd, is_stale, evict_stale, Event, cmd, tick, step, run,
}
use agent_dash.Relay.Channel.Invariant.{peers-store}

-- the peers of a channel: none if the manager does not hold it
abbrev pub peers_of : Option Channel → List Peer
peers_of none = []
peers_of (some ch) = ch.peers

abbrev pub members : String → Channels → List Peer
members k channels = peers_of (lookup k channels)

-- The abstract service: a key joins a channel unless it is there already, and leaves it.
abbrev pub present : ChannelCmd → String → List Peer → List Peer
present (auth cid key tx) k ps =
    if cid == k
    then if has_key key ps then ps else ps ++ record { public_key = key; tx = tx } ∷ []
    else ps
present (disconnect cid key) k ps = if cid == k then all_but key ps else ps
present (forward cid sender message) k ps = ps
present (sync cid since) k ps = ps

abbrev pub presents : List (ℕ × Event) → String → List Peer → List Peer
presents [] k ps = ps
presents ((_, cmd c) ∷ es) k ps = presents es k (present c k ps)
presents ((_, tick) ∷ es) k ps = presents es k ps

module _ (codec : Codec) (max_buffer now : ℕ) where
  members-auth :
      (cid key k : String) (tx : ℕ) (channels : Channels)
      → members k (handle_auth codec max_buffer now cid key tx channels).0
        ≡ present (auth cid key tx) k (members k channels)
  unfolding handle_auth or_new new
  members-auth cid key k tx channels =
      let ch : Channel = touch now (or_new now (lookup cid channels)) in
      ground (
        arith,
        lookup-insert cid k ch channels,
        lookup-insert cid k (joins ch key tx) channels,
        eq_iff cid k,
      )

  members-forward :
      (cid sender message k : String) (channels : Channels)
      → members k (handle_forward codec max_buffer now cid sender message channels).0
        ≡ members k channels
  unfolding handle_forward
  members-forward cid sender message k channels = elim (Option-cases (lookup cid channels)) [
    | inl absent ↦ rw (absent, handle_forward) refl
    | inr (ch, there) ↦
        let ch' : Channel = store max_buffer now (codec.from_str message) (touch now ch) in
        ground (
          arith,
          lookup-insert cid k ch' channels,
          eq_iff cid k,
          peers-store max_buffer now (codec.from_str message) (touch now ch),
        )
  ]

  members-disconnect :
      (cid key k : String) (channels : Channels)
      → members k (handle_disconnect codec max_buffer now cid key channels).0
        ≡ present (disconnect cid key) k (members k channels)
  unfolding handle_disconnect
  members-disconnect cid key k channels = elim (Option-cases (lookup cid channels)) [
    | inl absent ↦ ground (arith, eq_iff cid k)
    | inr (ch, there) ↦ ground (
      arith,
      lookup-insert cid k (leaves ch key) channels,
      lookup-remove cid k channels,
      eq_iff cid k,
    )
  ]

  members-handle_cmd :
      (c : ChannelCmd) (k : String) (channels : Channels)
      → members k (handle_cmd codec max_buffer now c channels).0 ≡ present c k (members k channels)
  unfolding handle_cmd
  members-handle_cmd (auth cid key tx) k channels = members-auth cid key k tx channels
  members-handle_cmd (forward cid sender message) k channels =
      members-forward cid sender message k channels
  members-handle_cmd (sync cid since) k channels = ground arith
  members-handle_cmd (disconnect cid key) k channels = members-disconnect cid key k channels

  handle_cmd-IsUnique :
      (c : ChannelCmd) (channels : Channels)
      → IsUnique channels
      → IsUnique (handle_cmd codec max_buffer now c channels).0
  unfolding handle_cmd
  handle_cmd-IsUnique (auth cid key tx) channels u =
      elim (Bool-cases (has_key key (touch now (or_new now (lookup cid channels))).peers)) [
        | inl twice ↦ rw (twice, handle_auth) (insert-IsUnique cid _ channels u)
        | inr fresh ↦ rw (fresh, handle_auth) (insert-IsUnique cid _ channels u)
      ]
  handle_cmd-IsUnique (forward cid sender message) channels u =
      elim (Option-cases (lookup cid channels)) [
        | inl absent ↦ rw (absent, handle_forward) u
        | inr (ch, there) ↦ rw (there, handle_forward) (insert-IsUnique cid _ channels u)
      ]
  handle_cmd-IsUnique (sync cid since) channels u = elim (Option-cases (lookup cid channels)) [
    | inl absent ↦ rw (absent, handle_sync) u
    | inr (ch, there) ↦ rw (there, handle_sync) u
  ]
  handle_cmd-IsUnique (disconnect cid key) channels u = elim (Option-cases (lookup cid channels)) [
    | inl absent ↦ rw (absent, handle_disconnect) u
    | inr (ch, there) ↦
        rw (there, handle_disconnect)
          (elim (Bool-cases (is_empty (leaves ch key).peers && is_empty (leaves ch key).buffer)) [
            | inl idle ↦ rw idle (remove-IsUnique cid channels u)
            | inr used ↦ rw used (insert-IsUnique cid _ channels u)
          ])
  ]

  -- A message is tried on every peer of its channel but the sender, once each and in the order of
  -- joining; a message for a channel that is not held goes nowhere.
  pub forward_recipients :
      (cid sender message : String) (channels : Channels)
      → (handle_cmd codec max_buffer now (forward cid sender message) channels).1
        ≡ map (λ p. to_peer p.tx message) (all_but sender (members cid channels))
  unfolding handle_cmd send_all
  forward_recipients cid sender message channels = elim (Option-cases (lookup cid channels)) [
    | inl absent ↦ rw (absent, handle_forward)
    | inr (ch, there) ↦ rw (there, handle_forward)
  ]

evict_stale-IsUnique :
    (ttl now : ℕ) (channels : Channels)
    → IsUnique channels
    → IsUnique (evict_stale ttl now channels)
unfolding evict_stale
evict_stale-IsUnique ttl now channels u = retain-IsUnique _ channels u

members-evict_stale :
    (ttl now : ℕ) (k : String) (channels : Channels)
    → IsUnique channels
    → members k (evict_stale ttl now channels) ≡ members k channels
unfolding evict_stale
members-evict_stale ttl now k channels u = elim (Option-cases (lookup k channels)) [
  | inl absent ↦ ground (arith, lookup-retain (λ _ ch. not (is_stale ttl now ch)) k channels u)
  | inr (ch, there) ↦ ground (arith, lookup-retain (λ _ ch. not (is_stale ttl now ch)) k channels u)
]

module _ (codec : Codec) (max_buffer ttl : ℕ) where
  -- Whatever commands and ticks arrive, the peers of each channel are those of the abstract service
  -- that knows only joining and leaving: buffering, eviction and the removal of empty channels
  -- never show.
  pub members-run :
      (es : List (ℕ × Event)) (k : String) (channels : Channels)
      → IsUnique channels
      → members k (run codec max_buffer ttl es channels) ≡ presents es k (members k channels)
  unfolding run step
  members-run [] k channels u = refl
  members-run ((now, cmd c) ∷ es) k channels u =
      members-run es k _ (handle_cmd-IsUnique codec max_buffer now c channels u)
      ∙ ap (presents es k) (members-handle_cmd codec max_buffer now c k channels)
  members-run ((now, tick) ∷ es) k channels u =
      members-run es k _ (evict_stale-IsUnique ttl now channels u)
      ∙ ap (presents es k) (members-evict_stale ttl now k channels u)
