-- ===== src/Connector.antt =====
-- crates/agent-dash/src/relay_connector.rs: the bridge between a daemon and the relay, which encrypts
-- what the daemon says and decrypts what the peer says. Cryptography, base64, serde and the sockets
-- are parameters.
pub mod Sealed
pub mod Paired
pub mod Delays
mod Tests
use agent_dash.Prelude.{
  ℕ, String, Bool, true, false, Option, none, some, List, [], ◌∷◌, ◌==◌, not, if◌then◌else◌, nat_eq,
  length, ◌⊎◌, inl, inr,
}
use Prim.Native.Char.{Char, code}
use Prim.Native.String as S
use Prim.Native.String.{◌++◌}
use agent_dash.Messages.Strings.{trim}
use agent_dash.Messages.Html.{ends_with}
use agent_dash.Relay.{RelayMessage, auth, auth_ok, auth_error, encrypted, Codec}

-- what is stored of a pairing
pub record RelayConfig : Type 0 where
  pub relay_url : String
  pub channel_id : String
  pub secret_key_b64 : String
  pub public_key_b64 : String
  pub channel_secret_b64 : String
  pub phone_public_key_b64 : Option String
  pub server_token : Option String

-- `str::replace` of a character
unfoldable pub replace_char : Char → String → String → String
replace_char from to S.[] = S.[]
replace_char from to (S.◌∷◌ c s) =
    let rest = replace_char from to s in
    if nat_eq (code c) (code from) then to ++ rest else S.◌∷◌ c rest

abbrev pub urlencoded : String → String
urlencoded s = replace_char " " "%20" (
    replace_char "+" "%2B"
      (replace_char "=" "%3D" (replace_char "&" "%26" (replace_char "%" "%25" s))))

unfoldable pub pairing_uri : RelayConfig → String
pairing_uri config =
    let uri =
      "agentdash://pair?relay="
      ++ (urlencoded config.relay_url
          ++ ("&secret="
              ++ (urlencoded config.channel_secret_b64
                  ++ ("&pk=" ++ urlencoded config.public_key_b64)))) in
    elim config.server_token [ none ↦ uri | some token ↦ uri ++ ("&token=" ++ urlencoded token) ]

-- why a bridge ends, but for a clean close
pub data Failure : Type 0 where
  daemon_unreachable cannot_subscribe relay_unreachable cannot_authenticate : Failure
  closed_before_auth auth_unreadable auth_not_text unexpected_auth : Failure
  auth_rejected : (message : String) → Failure
  daemon_read_error daemon_closed encryption_failed send_error : Failure
  relay_closed relay_error : Failure
  bad_ciphertext bad_nonce bad_nonce_length decryption_failed bad_utf8 write_error : Failure
  unwrap_of_none : Failure

pub data Ending : Type 0 where
  closed : Ending
  failed : (failure : Failure) → Ending

pub data Frame : Type 0 where
  text : (json : String) → Frame
  pong : (payload : List ℕ) → Frame

-- What the loop receives. A line comes with the nonce that is drawn for it and with whether the
-- frame is sent, a text with whether the daemon takes what it holds.
pub data Arrival : Type 0 where
  daemon_line : (nonce : List ℕ) (line : String) (is_sent : Bool) → Arrival
  daemon_error daemon_eof : Arrival
  relay_text : (json : String) (is_written : Bool) → Arrival
  relay_ping : (payload : List ℕ) → Arrival
  relay_close relay_other relay_failure relay_eof : Arrival

-- what comes of the calls before the loop
pub record Handshake : Type 0 where
  pub daemon_connects : Bool
  pub subscribes : Bool
  pub relay_connects : Bool
  pub auth_is_sent : Bool
  pub response : Arrival

pub record Bridge : Type 0 where
  pub ending : Option Ending
  pub to_relay : List Frame
  pub to_daemon : List String

pub record World : Type 0 where
  pub codec : Codec
  pub subscribe_json : String
  pub as_bytes : String → List ℕ
  pub from_utf8 : List ℕ → Option String
  pub encode : List ℕ → String
  pub decode : String → Option (List ℕ)
  pub encrypt : (nonce message : List ℕ) → Option (List ℕ)
  pub decrypt : (nonce ciphertext : List ℕ) → Option (List ℕ)

abbrev pub start : Bridge
start = record { ending = none; to_relay = []; to_daemon = [] }

abbrev pub fail : Failure → Bridge → Bridge
fail failure b = record b { ending = some (failed failure) }

abbrev pub send : Frame → Bridge → Bridge
send frame b = record b { to_relay = frame ∷ b.to_relay }

abbrev pub with_newline : String → String
with_newline line = if ends_with line "\n" then line else line ++ "\n"

-- `ok_or(failure)?` and `map_err(failure)?`
abbrev pub or_fail : {A B : Type 0} → Failure → Option A → (A → Failure ⊎ B) → Failure ⊎ B
or_fail failure none next = inl failure
or_fail failure (some a) next = next a

module _ (world : World) (config : RelayConfig) where
  -- the line in an encrypted message
  unfoldable pub open_message : (ciphertext nonce : String) → Failure ⊎ String
  open_message ciphertext nonce = or_fail bad_ciphertext (world.decode ciphertext) (λ ct_bytes.
      or_fail bad_nonce (world.decode nonce) (λ nonce_bytes.
        if not (nat_eq (length nonce_bytes) 24)
        then inl bad_nonce_length
        else or_fail decryption_failed (world.decrypt nonce_bytes ct_bytes) (λ plaintext.
          or_fail bad_utf8 (world.from_utf8 plaintext) (λ line. inr (with_newline line)))))

  -- what a text of the relay leads to
  unfoldable pub handle_relay : Option RelayMessage → Bool → Bridge → Bridge
  handle_relay (some (encrypted channel_id ciphertext nonce)) is_written b =
      elim (open_message ciphertext nonce) [
        | inl failure ↦ fail failure b
        | inr line ↦
            if is_written then record b { to_daemon = line ∷ b.to_daemon } else fail write_error b
      ]
  handle_relay _ is_written b = b

  -- the frame for a line of the daemon
  unfoldable pub seal : (nonce : List ℕ) → (line : String) → Failure ⊎ Frame
  seal nonce line =
      or_fail encryption_failed (world.encrypt nonce (world.as_bytes line)) (λ ciphertext.
        or_fail unwrap_of_none
          (world.codec.to_string
            (encrypted config.channel_id (world.encode ciphertext) (world.encode nonce)))
          (λ json. inr (text json)))

  -- one round of the loop
  unfoldable pub step : Arrival → Bridge → Bridge
  step (daemon_line nonce line is_sent) b =
      let trimmed = trim line in
      if trimmed == "" then b else elim (seal nonce trimmed) [
        | inl failure ↦ fail failure b
        | inr frame ↦ if is_sent then send frame b else fail send_error b
      ]
  step daemon_error b = fail daemon_read_error b
  step daemon_eof b = fail daemon_closed b
  step (relay_text json is_written) b = handle_relay (world.codec.from_str json) is_written b
  step (relay_ping payload) b = send (pong payload) b
  step relay_close b = record b { ending = some closed }
  step relay_other b = b
  step relay_failure b = fail relay_error b
  step relay_eof b = fail relay_closed b

  unfoldable pub run : List Arrival → Bridge → Bridge
  run [] b = b
  run (a ∷ arrivals) b = elim b.ending [ none ↦ run arrivals (step a b) | some ending ↦ b ]

  -- the answer of the relay to the authentication
  unfoldable pub greeted : Option RelayMessage → Bridge → Bridge
  greeted (some (auth_ok peer_count)) b = b
  greeted (some (auth_error message)) b = fail (auth_rejected message) b
  greeted _ b = fail unexpected_auth b

  unfoldable pub await_auth : Arrival → Bridge → Bridge
  await_auth (relay_text json _) b = greeted (world.codec.from_str json) b
  await_auth relay_eof b = fail closed_before_auth b
  await_auth relay_failure b = fail auth_unreadable b
  await_auth _ b = fail auth_not_text b

  abbrev pub auth_json : Option String
  auth_json =
      world.codec.to_string (auth config.channel_id config.public_key_b64 config.server_token)

  unfoldable pub greet : Handshake → Bridge
  greet h =
      if not h.daemon_connects
      then fail daemon_unreachable start
      else if not h.subscribes
      then fail cannot_subscribe start
      else let subscribed = record start { to_daemon = (world.subscribe_json ++ "\n") ∷ [] } in
        if not h.relay_connects then fail relay_unreachable subscribed else elim auth_json [
          | none ↦ fail unwrap_of_none subscribed
          | some json ↦
              if not h.auth_is_sent
              then fail cannot_authenticate subscribed
              else await_auth h.response (send (text json) subscribed)
        ]

  abbrev pub run_bridge : Handshake → List Arrival → Bridge
  run_bridge h arrivals = run arrivals (greet h)
