-- ===== src/Wrapper/Threads.antt =====
-- crates/agent-dash/src/wrapper.rs: the thread that reads the agent's output, the one that sends
-- what changes on the screen, and the one that forwards the output in batches.
pub mod Updates
pub mod Batches
use agent_dash.Prelude.{
  ℕ, zero, suc, ◌-◌, String, Bool, true, false, Option, none, some, List, [], ◌∷◌, ◌++◌, ◌&&◌, ◌||◌,
  not, map_option, if◌then◌else◌, leb, ltb, nat_eq, length,
}
use agent_dash.Protocol.Requests.{ClientRequest, update_suggestion, update_thinking_text}
use agent_dash.Daemon.Wrappers.{differ}
use agent_dash.Wrapper.Screen.{Screen, detect_suggestion, detect_thinking_text}

pub record ScreenUpdate : Type 0 where
  pub suggestion : Option String
  pub thinking_text : Option String

-- the derived `PartialEq`, negated
abbrev pub changed : ScreenUpdate → ScreenUpdate → Bool
changed u v =
    if differ u.suggestion v.suggestion then true else differ u.thinking_text v.thinking_text

-- the terminal parser
pub record Vt100 (P : Type 0) : Type 0 where
  pub set_size : (rows cols : ℕ) → P → P
  pub process : List ℕ → P → P
  pub screen : P → Screen

-- `try_send` on a `sync_channel` of some capacity, oldest first
abbrev pub try_send {ℓ} : {A : Type ℓ} → ℕ → A → List A → List A
try_send capacity a queue = if ltb (length queue) capacity then queue ++ a ∷ [] else queue

-- the variables of the reader thread, and the channels that it fills
pub record Reader (P : Type 0) : Type 0 where
  pub parser : P
  pub last_update : ScreenUpdate
  pub last_check : ℕ
  pub last_parser_size : ℕ × ℕ
  pub screen_queue : List ScreenUpdate
  pub terminal_queue : List (List ℕ)
  pub running : Bool

-- what the thread meets in one round: the time in milliseconds, the terminal's size, what `read`
-- gives, where nothing is the end of the output or an error, and whether stdout takes it
pub record Round : Type 0 where
  pub now : ℕ
  pub term_size : ℕ × ℕ
  pub bytes : Option (List ℕ)
  pub is_written : Bool

module _ {P : Type 0} (vt : Vt100 P) where
  abbrev pub same_size : ℕ × ℕ → ℕ × ℕ → Bool
  same_size (a, b) (c, d) = nat_eq a c && nat_eq b d

  unfoldable pub fit_parser : ℕ × ℕ → Reader P → Reader P
  fit_parser (cols, rows) r =
      if same_size (cols, rows) r.last_parser_size
      then r
      else record r { parser = vt.set_size rows cols r.parser; last_parser_size = (cols, rows) }

  abbrev pub seen : P → ScreenUpdate
  seen parser = record {
    suggestion = detect_suggestion (vt.screen parser);
    thinking_text = detect_thinking_text (vt.screen parser);
  }

  -- the debounced detection: an update that does not fit into the channel is dropped
  unfoldable pub check_screen : ℕ → Reader P → Reader P
  check_screen now r =
      if leb 100 (now - r.last_check)
      then if changed (seen r.parser) r.last_update
        then record r {
          last_check = now;
          last_update = seen r.parser;
          screen_queue = try_send 4 (seen r.parser) r.screen_queue;
        }
        else record r { last_check = now }
      else r

  abbrev pub feed : List ℕ → Reader P → Reader P
  feed bytes r = record r { parser = vt.process bytes r.parser }

  -- one round of the loop; `headless` has no stdout
  unfoldable pub reader_round : Bool → Round → Reader P → Reader P
  reader_round headless round r = elim round.bytes [
    | none ↦ record r { running = false }
    | some bytes ↦
        if not headless && not round.is_written
        then record r { running = false }
        else check_screen round.now (
            feed bytes (
              fit_parser round.term_size
                (record r { terminal_queue = try_send 64 bytes r.terminal_queue })))
  ]

  unfoldable pub run_reader : Bool → List Round → Reader P → Reader P
  run_reader headless [] r = r
  run_reader headless (round ∷ rounds) r =
      run_reader headless rounds (if r.running then reader_round headless round r else r)

-- the variables of the thread that sends screen updates, with the requests sent, newest first
pub record Sender (V : Type 0) : Type 0 where
  pub last_suggestion : Option String
  pub last_thinking : Option String
  pub running : Bool
  pub sent : List (ClientRequest V)

module _ {V : Type 0} where
  abbrev pub new_sender : Sender V
  new_sender = record { last_suggestion = none; last_thinking = none; running = true; sent = [] }

  -- `send_to_daemon`, with its success: after an error the thread ends
  abbrev pub send_request : ClientRequest V → Bool → Sender V → Sender V
  send_request req is_sent s =
      if is_sent then record s { sent = req ∷ s.sent } else record s { running = false }

  unfoldable pub send_suggestion : String → Option String → Bool → Sender V → Sender V
  send_suggestion sid suggestion is_sent s =
      if differ suggestion s.last_suggestion
      then send_request (update_suggestion sid suggestion) is_sent
          (record s { last_suggestion = suggestion })
      else s

  unfoldable pub send_thinking : String → Option String → Bool → Sender V → Sender V
  send_thinking sid text is_sent s =
      if differ text s.last_thinking
      then send_request (update_thinking_text sid text) is_sent (record s { last_thinking = text })
      else s

  -- an update that is received: the suggestion first, then the thinking text
  unfoldable pub sender_round : String → ScreenUpdate → (Bool × Bool) → Sender V → Sender V
  sender_round sid u (first, second) s =
      let s₁ = send_suggestion sid u.suggestion first s in
      if s₁.running then send_thinking sid u.thinking_text second s₁ else s₁

  unfoldable pub run_sender : String → List (ScreenUpdate × (Bool × Bool)) → Sender V → Sender V
  run_sender sid [] s = s
  run_sender sid ((u, oks) ∷ updates) s =
      run_sender sid updates (if s.running then sender_round sid u oks s else s)

-- the draining of what is pending into a batch
unfoldable pub drain : List ℕ → List (List ℕ) → List ℕ × List (List ℕ)
drain combined [] = (combined, [])
drain combined (more ∷ pending) =
    let rest = drain (combined ++ more) pending in
    if ltb 16384 (length (combined ++ more)) then (combined ++ more, pending) else rest

-- what the terminal data thread meets in its rounds, by their number: the `running` flag, whether
-- the daemon takes the batch, and, if it does not, whether a new connection is made before the flag
-- is cleared
pub record Link : Type 0 where
  pub is_running : ℕ → Bool
  pub takes : ℕ → Bool
  pub reconnects : ℕ → Bool

-- the batches that are made of what is pending and whether the daemon took them, on fuel: one round
-- of the loop for each. A batch that is not taken is not sent again.
unfoldable pub batches : Link → (round fuel : ℕ) → List (List ℕ) → Option (List (List ℕ × Bool))
batches link round fuel [] = some []
batches link round zero (chunk ∷ pending) = none
batches link round (suc fuel) (chunk ∷ pending) =
    let (combined, rest) = drain chunk pending in
    let later = batches link (suc round) fuel rest in
    let taken = link.takes round in
    if not (link.is_running round)
    then some []
    else if taken || link.reconnects round
    then map_option (λ made. (combined, taken) ∷ made) later
    else some ((combined, taken) ∷ [])
