-- ===== src/Jsonl.antt =====
-- crates/agent-dash/src/jsonl.rs: what the tail of a session's journal says of the session. The
-- decoding of one line, which serde derives from the types, is a parameter.
pub mod Described
mod Tests
use agent_dash.Prelude.{
  ℕ, ◌-◌, String, Bool, true, false, Option, none, some, List, [], ◌∷◌, ◌==◌, ◌&&◌, not,
  if◌then◌else◌, and_then, unwrap_or, length, drop, nat_eq,
}
use agent_dash.Messages.Json.{Json}
use agent_dash.Messages.Strings.{lines}
use agent_dash.Messages.Files.{Files}

pub data ContentBlock (V : Type 0) : Type 0 where
  tool_use : (name : String) (input : V) → ContentBlock V
  other : ContentBlock V

pub record AssistantMessage (V : Type 0) : Type 0 where
  pub content : Option (List (ContentBlock V))

pub data JournalEntry (V : Type 0) : Type 0 where
  assistant :
      (session_id git_branch : Option String) (message : Option (AssistantMessage V))
      → JournalEntry V
  user : (session_id git_branch : Option String) → JournalEntry V
  other : JournalEntry V

pub record JsonlStatus : Type 0 where
  pub session_id : String
  pub git_branch : String
  pub has_pending_question : Bool
  pub question_text : Option String

-- the variables of the loop of `parse_jsonl_status`
pub record Scan : Type 0 where
  pub session_id : String
  pub git_branch : String
  pub last_was_assistant_with_ask : Bool
  pub question_text : Option String
  pub last_was_user : Bool

abbrev pub tail_bytes : ℕ
tail_bytes = 65536

-- the last lines of a text
unfoldable pub last_lines : ℕ → String → List String
last_lines max_lines buf = let all = lines buf in drop (length all - max_lines) all

-- The errors of the seek and of the read are ignored: the buffer then stays empty.
unfoldable pub read_tail_lines : Files → String → ℕ → List String
read_tail_lines files path max_lines = elim (files.file_len path) [
  | none ↦ []
  | some size ↦
      if nat_eq size 0
      then []
      else last_lines max_lines (unwrap_or (files.read_from path (size - tail_bytes)) "")
]

abbrev pub first : {A : Type 0} → List A → Option A
first [] = none
first (x ∷ xs) = some x

-- the variables before the loop
abbrev pub blank : Scan
blank = record {
  session_id = "";
  git_branch = "";
  last_was_assistant_with_ask = false;
  question_text = none;
  last_was_user = false;
}

-- what is made of them after it
abbrev pub status_of : Scan → Option JsonlStatus
status_of s =
    if s.session_id == ""
    then none
    else some (record {
      session_id = s.session_id;
      git_branch = s.git_branch;
      has_pending_question = s.last_was_assistant_with_ask && not s.last_was_user;
      question_text = s.question_text;
    })

module _ {V : Type 0} (json : Json V) where
  -- `input.get("questions")`, its first element, and what that has under `question`
  abbrev pub question_value : V → Option V
  question_value input =
      and_then (and_then (and_then (json.get "questions" input) json.as_array) first)
        (json.get "question")

  abbrev pub ask : V → Scan → Scan
  ask input s = record s {
    last_was_assistant_with_ask = true;
    question_text = elim (question_value input) [ none ↦ s.question_text | some q ↦ json.as_str q ];
  }

  -- the loop over the blocks of a message
  unfoldable pub scan_blocks : List (ContentBlock V) → Scan → Scan
  scan_blocks [] s = s
  scan_blocks (ContentBlock.other ∷ blocks) s = scan_blocks blocks s
  scan_blocks (tool_use name input ∷ blocks) s =
      scan_blocks blocks (if name == "AskUserQuestion" then ask input s else s)

  -- the blocks of a message that has any
  abbrev pub blocks_of : Option (AssistantMessage V) → List (ContentBlock V)
  blocks_of message = unwrap_or (and_then message (λ m. m.content)) []

  abbrev pub place : Option String → Option String → Scan → Scan
  place sid gb s = record s {
    session_id = unwrap_or sid s.session_id;
    git_branch = unwrap_or gb s.git_branch;
  }

  abbrev pub enter : Bool → Scan → Scan
  enter is_user s = record s {
    last_was_user = is_user;
    last_was_assistant_with_ask = false;
    question_text = none;
  }

  -- the `match entry`
  unfoldable pub scan_entry : JournalEntry V → Scan → Scan
  scan_entry (assistant sid gb message) s =
      scan_blocks (blocks_of message) (enter false (place sid gb s))
  scan_entry (user sid gb) s = enter true (place sid gb s)
  scan_entry JournalEntry.other s = s

  module _ (from_str : String → Option (JournalEntry V)) where
    -- the loop over the lines
    unfoldable pub scan_lines : List String → Scan → Scan
    scan_lines [] s = s
    scan_lines (line ∷ rest) s =
        scan_lines rest (elim (from_str line) [ none ↦ s | some entry ↦ scan_entry entry s ])

    unfoldable pub parse_jsonl_status : Files → String → Option JsonlStatus
    parse_jsonl_status files path = status_of (scan_lines (read_tail_lines files path 20) blank)
