-- ===== src/Relay/Channel/Tests.antt =====
-- Runs of the channel manager, after the tests of channel.rs, and the theorems at such states.
use agent_dash.Prelude.{ℕ, String, ◌≡◌, refl, none, some, List, [], ◌∷◌, arith, ◌==◌, if◌then◌else◌}
use agent_dash.Table.{lookup}
use agent_dash.Relay.{BufferedMessage, encrypted, Codec}
use agent_dash.Relay.Channel.{
  Peer, Channel, Channels, auth, forward, disconnect, to_peer, joined, rejected, or_new, send_all,
  handle_cmd, Event, cmd, tick, run,
}
use agent_dash.Relay.Channel.Invariant.{IsSound, run-IsSound}
use agent_dash.Relay.Channel.Presence.{members, members-run}

-- A codec that reads the text "m" as an encrypted message and writes nothing.
abbrev codec : Codec
codec = record {
  to_string = λ m. some "peer_change";
  from_str = λ s. if s == "m" then some (encrypted "ch1" "ct" "nc") else none;
}

abbrev message_at : ℕ → BufferedMessage
message_at n = record { seq = n; ciphertext = "ct"; nonce = "nc"; timestamp = 9 }

abbrev peer : String → ℕ → Peer
peer key tx = record { public_key = key; tx = tx }

abbrev room : Channel
room = record {
  peers = peer "pk1" 1 ∷ peer "pk2" 2 ∷ [];
  buffer = message_at 1 ∷ message_at 2 ∷ [];
  next_seq = 3;
  last_activity = 9;
}

abbrev rooms : Channels
rooms = ("ch1", room) ∷ []

-- after `auth_and_disconnect`, `duplicate_key_rejected` and `forward_and_sync`
duplicate :
    (handle_cmd codec 100 5 (auth "ch1" "pk1" 7) rooms).1
    ≡ rejected "public key already connected" ∷ []
unfolding handle_cmd or_new lookup
duplicate = refl

joining :
    (handle_cmd codec 100 5 (auth "ch1" "pk3" 7) rooms).1
    ≡ joined 3 ∷ to_peer 1 "peer_change" ∷ to_peer 2 "peer_change" ∷ to_peer 7 "peer_change" ∷ []
unfolding handle_cmd or_new lookup send_all
joining = refl

abbrev events : List (ℕ × Event)
events =
    (1, cmd (auth "ch1" "pk1" 1))
    ∷ (2, cmd (auth "ch1" "pk2" 2))
    ∷ (3, cmd (forward "ch1" "pk1" "m"))
    ∷ (4, cmd (disconnect "ch1" "pk1"))
    ∷ (9, tick)
    ∷ []

run-IsSound_example : IsSound 100 6 (run codec 100 3 events [])
run-IsSound_example = run-IsSound codec 100 3 events (omega arith)

members-run_example : members "ch1" (run codec 100 3 events []) ≡ peer "pk2" 2 ∷ []
unfolding lookup
members-run_example = members-run codec 100 3 events "ch1" [] tt

abbrev deserted : Channel
deserted = record room { peers = [] }
