-- ===== src/Connector/Paired.antt =====
-- A line of the daemon, from one bridge to the next.
use agent_dash.Prelude.{
  ℕ, String, some, List, ◌∷◌, ◌==◌, ◌≡◌, refl, true, false, inr, length, nat_eq,
}
use agent_dash.Messages.Strings.{trim}
use agent_dash.Relay.{encrypted}
use agent_dash.Connector.{
  World, RelayConfig, text, daemon_line, relay_text, Bridge, seal, open_message, handle_relay, step,
  with_newline,
}

module _ (sender receiver : World) (config config' : RelayConfig) where
  -- Let the receiver decrypt what the sender encrypts. A line of a daemon that is not blank, and is
  -- encrypted with a nonce of 24 bytes, is one more frame for the relay; and where serde, base64 and
  -- UTF-8 read back what was written of it, that frame is one more line for the daemon at the other
  -- end: the trimmed line, with a newline.
  pub line_passes :
      ((nonce message ciphertext : List ℕ)
        → sender.encrypt nonce message ≡ some ciphertext
        → receiver.decrypt nonce ciphertext ≡ some message)
      → (nonce ciphertext : List ℕ) → (line json : String) → (b c : Bridge)
      → trim line == "" ≡ false
      → nat_eq (length nonce) 24 ≡ true
      → sender.encrypt nonce (sender.as_bytes (trim line)) ≡ some ciphertext
      → sender.codec.to_string
          (encrypted config.channel_id (sender.encode ciphertext) (sender.encode nonce))
        ≡ some json
      → receiver.codec.from_str json
        ≡ some (encrypted config.channel_id (sender.encode ciphertext) (sender.encode nonce))
      → receiver.decode (sender.encode ciphertext) ≡ some ciphertext
      → receiver.decode (sender.encode nonce) ≡ some nonce
      → receiver.from_utf8 (sender.as_bytes (trim line)) ≡ some (trim line)
      → ((step sender config (daemon_line nonce line true) b).to_relay ≡ text json ∷ b.to_relay)
        × ((step receiver config' (relay_text json true) c).to_daemon
            ≡ with_newline (trim line) ∷ c.to_daemon)
        × ((step receiver config' (relay_text json true) c).ending ≡ c.ending)
  unfolding step seal handle_relay open_message
  line_passes decrypts nonce ciphertext line json b c full size e h read ct_decodes n_decodes utf8 =
      let message = sender.as_bytes (trim line) in
      let opened = decrypts nonce message ciphertext e in
      let readable : open_message receiver config' (sender.encode ciphertext) (sender.encode nonce)
          ≡ inr (with_newline (trim line)) =
        rw (ct_decodes, n_decodes, size, opened, utf8, open_message) refl in
      (
        rw (full, e, h, seal, step) refl,
        rw (read, readable, handle_relay) refl,
        rw (read, readable, handle_relay) refl,
      )
