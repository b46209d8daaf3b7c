-- ===== src/Relay/Server/Tests.antt =====
-- Connections, after the tests of server.rs, and the theorems at them.
use agent_dash.Prelude.{
  ◌++◌, String, true, false, ◌≡◌, refl, none, some, List, [], ◌∷◌, any, ◌==◌, if◌then◌else◌,
}
use agent_dash.Relay.{BufferedMessage, auth, encrypted, auth_ok, sync, Codec}
use agent_dash.Relay.Channel.{Channel}
use agent_dash.Relay.Server.{
  Event, frame, text, close, auth_accepted, outgoing, Parsed, parsed, malformed, waiting, closed,
  says, passes, asks_auth, forwards, disconnects, first_message, next_message, admits, step, run,
}
use agent_dash.Relay.Server.Gate.{is_command, strangers_send_no_commands}
use agent_dash.Relay.Server.Balance.{admitted, disconnected, held, connection_balance}

abbrev from_str : String → Parsed
from_str s =
    if s == "a"
    then parsed (auth "channel-1" "pk" (some "secret"))
    else if s == "m"
    then parsed (encrypted "channel-1" "ct" "nc")
    else if s == "s"
    then parsed (sync "channel-2" 0)
    else malformed "expected value"

abbrev session : List Event
session =
    frame (text "a") ∷ auth_accepted 1 ∷ frame (text "m") ∷ outgoing "hello" true ∷ frame close ∷ []

whole_session : run from_str (some "secret") waiting session ≡ (
  closed,
  asks_auth "channel-1" "pk"
      ∷ says (auth_ok 1)
      ∷ forwards "channel-1" "pk" "m"
      ∷ passes "hello"
      ∷ disconnects "channel-1" "pk"
      ∷ [],
)
unfolding run step first_message next_message admits
whole_session = refl

connection_balance_example :
    admitted none (run from_str (some "secret") waiting session).1
    ≡ disconnected (run from_str (some "secret") waiting session).1
      ++ held (run from_str (some "secret") waiting session).0
connection_balance_example = connection_balance from_str (some "secret") session

strangers_send_no_commands_example :
    any is_command (run from_str (some "other") waiting session).1 ≡ false
unfolding admits
strangers_send_no_commands_example = strangers_send_no_commands from_str (some "other") session refl

abbrev message : BufferedMessage
message = record { seq = 1; ciphertext = "ct"; nonce = "nc"; timestamp = 9 }

abbrev other_room : Channel
other_room = record {
  peers = record { public_key = "pk2"; tx = 1 } ∷ [];
  buffer = message ∷ [];
  next_seq = 2;
  last_activity = 9;
}

abbrev codec : Codec
codec = record { to_string = λ m. none; from_str = λ s. none }
