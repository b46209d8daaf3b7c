-- ===== src/Relay.antt =====
-- The relay: crates/agent-dash-core/src/relay.rs (its messages), and below it the channel manager
-- and the connections of crates/agent-dash-relay.
pub mod Channel
pub mod Server
use agent_dash.Prelude.{ℕ, String, Option, List}

pub record BufferedMessage : Type 0 where
  pub seq : ℕ
  pub ciphertext : String
  pub nonce : String
  pub timestamp : ℕ

pub data RelayMessage : Type 0 where
  auth : (channel_id public_key : String) (server_token : Option String) → RelayMessage
  auth_ok : (peer_count : ℕ) → RelayMessage
  auth_error : (message : String) → RelayMessage
  encrypted : (channel_id ciphertext nonce : String) → RelayMessage
  peer_change : (channel_id : String) (peer_count : ℕ) → RelayMessage
  sync : (channel_id : String) (since_seq : ℕ) → RelayMessage
  sync_response : (channel_id : String) (messages : List BufferedMessage) → RelayMessage

-- `serde_json` at `RelayMessage`: `none` is an error. The package is not part of the repository.
pub record Codec : Type 0 where
  pub to_string : RelayMessage → Option String
  pub from_str : String → Option RelayMessage
