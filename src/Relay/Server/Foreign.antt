-- ===== src/Relay/Server/Foreign.antt =====
-- What a client of one channel can read of another.
use agent_dash.Prelude.{ℕ, String, Option, false, ◌≡◌, refl, some, [], ◌∷◌}
use agent_dash.Table.{lookup}
use agent_dash.Relay.{sync, Codec}
use agent_dash.Relay.Channel.{Channel, Channels, newer, has_key, handle_cmd, missed, handle_sync}
use agent_dash.Relay.Channel as Manager
use agent_dash.Relay.Server.{
  frame, text, Parsed, parsed, joined, syncing, asks_sync, next_message, step,
}

-- A client that has joined any channel may sync any other: its connection asks the manager for the
-- channel that the message names, and is given the messages that the channel holds, although the
-- client's key is not among the channel's peers.
pub sync_reads_any_channel :
    (from_str : String → Parsed) (required : Option String) (codec : Codec)
    (max_buffer now since : ℕ) (cid key id content : String) (ch : Channel) (channels : Channels)
    → from_str content ≡ parsed (sync id since)
    → lookup id channels ≡ some ch
    → has_key key ch.peers ≡ false
    → (step from_str required (joined cid key) (frame (text content))
        ≡ (syncing cid key id, asks_sync id since ∷ []))
      × ((handle_cmd codec max_buffer now (Manager.sync id since) channels).1
          ≡ missed (newer since ch.buffer) ∷ [])
unfolding step next_message handle_cmd handle_sync
sync_reads_any_channel from_str required codec max_buffer now since cid key id content ch channels
      asks there stranger =
    (rw (asks, step) refl, rw (there, handle_cmd, handle_sync) refl)
