-- ===== src/Jsonl/Tests.antt =====
-- Journals after the tests of jsonl.rs, and the theorem at one.
use agent_dash.Prelude.{
  ℕ, String, true, false, ◌≡◌, refl, Option, none, some, [], ◌∷◌, ◌==◌, if◌then◌else◌, nat_eq,
  filter_map,
}
use agent_dash.Messages.Json.{Json}
use agent_dash.Messages.Strings.{lines_from, strip_cr}
use agent_dash.Messages.Files.{Files}
use agent_dash.Jsonl.{
  JournalEntry, assistant, user, tool_use, read_tail_lines, last_lines, parse_jsonl_status,
  scan_lines, scan_entry, scan_blocks,
}
use agent_dash.Jsonl.Described.{described, parse_jsonl_status-described}

-- 0 is the input of a question, 1 its list of questions, 2 the question, and 3 its text
abbrev json : Json ℕ
json = record {
  from_str = λ s. none;
  as_str = λ v. if nat_eq v 3 then some "Which approach?" else none;
  as_array = λ v. if nat_eq v 1 then some (2 ∷ []) else none;
  is_object = λ v. nat_eq v 0;
  get = λ key v. if key == "questions" then some 1 else if key == "question" then some 3 else none;
}

abbrev entry : String → Option (JournalEntry ℕ)
entry line =
    if line == "A"
    then some (
        assistant (some "s1") (some "feat")
          (some (record { content = some (tool_use "AskUserQuestion" 0 ∷ []) })))
    else if line == "U"
    then some (user none none)
    else none

abbrev file : String → Files
file buf = record { file_len = λ path. some 9; read_from = λ path offset. some buf }

asks :
    parse_jsonl_status json entry (file "U\nA\n?") "t"
    ≡ some (record {
      session_id = "s1";
      git_branch = "feat";
      has_pending_question = true;
      question_text = some "Which approach?";
    })
unfolding parse_jsonl_status scan_lines scan_entry scan_blocks read_tail_lines last_lines lines_from
    strip_cr
asks = refl

answered :
    parse_jsonl_status json entry (file "A\nU\n") "t"
    ≡ some (record {
      session_id = "s1";
      git_branch = "feat";
      has_pending_question = false;
      question_text = none;
    })
unfolding parse_jsonl_status scan_lines scan_entry scan_blocks read_tail_lines last_lines lines_from
    strip_cr
answered = refl

nameless : parse_jsonl_status json entry (file "U\n") "t" ≡ none
unfolding parse_jsonl_status scan_lines scan_entry read_tail_lines last_lines lines_from strip_cr
nameless = refl

parse_jsonl_status-described_example :
    parse_jsonl_status json entry (file "U\nA\n?") "t"
    ≡ described json (filter_map entry (read_tail_lines (file "U\nA\n?") "t" 20))
parse_jsonl_status-described_example = parse_jsonl_status-described json entry (file "U\nA\n?") "t"
