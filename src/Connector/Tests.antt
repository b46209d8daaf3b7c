-- ===== src/Connector/Tests.antt =====
-- Two ends of a pairing, and the theorems at them.
use agent_dash.Prelude.{
  ℕ, none, some, List, [], ◌∷◌, ◌==◌, ◌≡◌, refl, true, length, All, if◌then◌else◌, subst-some,
  nat_eq,
}
use agent_dash.Messages.Strings.{trim, trim_start, trim_end}
use agent_dash.Relay.{encrypted, auth_ok}
use agent_dash.Connector.{
  World, RelayConfig, text, Arrival, daemon_line, relay_text, relay_ping, relay_close, Handshake,
  closed, failed, daemon_closed, start, step, with_newline, run_bridge, replace_char, pairing_uri,
  run, greet, greeted, await_auth, handle_relay, open_message, seal, pong,
}
use agent_dash.Connector.Sealed.{IsAllowed, run_bridge-IsPrivate}
use agent_dash.Connector.Paired.{line_passes}
use agent_dash.Connector.Delays.{delays}

opened :
    (message ciphertext : List ℕ)
    → some (0 ∷ message) ≡ some ciphertext
    → (elim ciphertext [ [] ↦ none | tag ∷ rest ↦ some rest ]) ≡ some message
opened message ciphertext e =
    subst-some (λ (c : List ℕ). (elim c [ [] ↦ none | tag ∷ rest ↦ some rest ]) ≡ some message) e
      refl

abbrev config : RelayConfig
config = record {
  relay_url = "wss://relay/a?b=c";
  channel_id = "ch";
  secret_key_b64 = "sk";
  public_key_b64 = "pk";
  channel_secret_b64 = "c+s=";
  phone_public_key_b64 = some "phone";
  server_token = some "t&t";
}

uri :
    pairing_uri config
    ≡ "agentdash://pair?relay=wss://relay/a?b%3Dc&secret=c%2Bs%3D&pk=pk&token=t%26t"
unfolding pairing_uri replace_char
uri = refl

-- a nonce of 24 bytes
abbrev nonce : List ℕ
nonce =
    1 ∷ 2 ∷ 3 ∷ 4 ∷ 5 ∷ 6 ∷ 7 ∷ 8 ∷ 9 ∷ 10 ∷ 11 ∷ 12 ∷ 13 ∷ 14 ∷ 15 ∷ 16 ∷ 17 ∷ 18 ∷ 19 ∷ 20 ∷ 21
    ∷ 22 ∷ 23 ∷ 24 ∷ []

-- the only text is "hi", two bytes, and encryption adds a byte
abbrev world : World
world = record {
  codec = record {
    to_string = λ m. elim m [ encrypted _ _ _ ↦ some "sealed" | _ ↦ some "auth" ];
    from_str = λ s. if s == "sealed" then some (encrypted "ch" "C" "N") else some (auth_ok 1);
  };
  subscribe_json = "subscribe";
  as_bytes = λ s. 104 ∷ 105 ∷ [];
  from_utf8 = λ bytes. some "hi";
  encode = λ bytes. if nat_eq (length bytes) 24 then "N" else "C";
  decode = λ s. if s == "N" then some nonce else some (0 ∷ 104 ∷ 105 ∷ []);
  encrypt = λ n message. some (0 ∷ message);
  decrypt = λ n ciphertext. elim ciphertext [ [] ↦ none | tag ∷ message ↦ some message ];
}

abbrev handshake : Handshake
handshake = record {
  daemon_connects = true;
  subscribes = true;
  relay_connects = true;
  auth_is_sent = true;
  response = relay_text "ok" true;
}

abbrev arrivals : List Arrival
arrivals =
    daemon_line nonce " hi " true
    ∷ relay_ping (7 ∷ [])
    ∷ relay_text "sealed" true
    ∷ relay_close
    ∷ []

bridged : run_bridge world config handshake arrivals ≡ record {
  ending = some closed;
  to_relay = pong (7 ∷ []) ∷ text "sealed" ∷ text "auth" ∷ [];
  to_daemon = "hi\n" ∷ "subscribe\n" ∷ [];
}
unfolding run step greet greeted await_auth handle_relay open_message seal trim_end trim_start
bridged = refl

run_bridge-IsPrivate_example :
    All (IsAllowed world config) (run_bridge world config handshake arrivals).to_relay
run_bridge-IsPrivate_example = run_bridge-IsPrivate world config handshake arrivals

line_passes_example :
    ((step world config (daemon_line nonce " hi " true) start).to_relay ≡ text "sealed" ∷ [])
    × ((step world config (relay_text "sealed" true) start).to_daemon
        ≡ with_newline (trim " hi ") ∷ [])
    × ((step world config (relay_text "sealed" true) start).ending ≡ none)
unfolding trim_end trim_start
line_passes_example =
    line_passes world world config config (λ n. opened) nonce (0 ∷ 104 ∷ 105 ∷ []) " hi " "sealed"
      start start refl refl refl refl refl refl refl refl

-- a bridge that has worked for a day does not shorten the next wait
grown :
    delays 1000 (
      failed daemon_closed
      ∷ failed daemon_closed
      ∷ failed daemon_closed
      ∷ failed daemon_closed
      ∷ failed daemon_closed
      ∷ failed daemon_closed
      ∷ [])
    ≡ 1000 ∷ 2000 ∷ 4000 ∷ 8000 ∷ 16000 ∷ 30000 ∷ []
unfolding delays
grown = refl
