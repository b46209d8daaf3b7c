-- ===== src/Messages/Files.antt =====
-- crates/agent-dash/src/messages.rs: the reading of transcript files. The file system is a pair of
-- functions: the length of a file that can be opened, and its text from an offset on, `none` where
-- seeking or reading fails or the bytes are not UTF-8.
use agent_dash.Prelude.{
  ℕ, ◌-◌, String, Option, none, some, List, [], ◌==◌, not, if◌then◌else◌, ltb, leb, nat_eq, filter,
  unwrap_or,
}
use Prim.Native.Char.{code}
use Prim.Native.String as S
use agent_dash.Protocol.{ChatMessage}
use agent_dash.Messages.Json.{Json}
use agent_dash.Messages.Strings.{trim, lines}
use agent_dash.Messages.Blocks.{parse_lines, last_messages}

pub record Files : Type 0 where
  pub file_len : String → Option ℕ
  pub read_from : String → ℕ → Option String

-- `buf.find('\n')`, and the text after it
unfoldable pub after_newline : String → Option String
after_newline S.[] = none
after_newline (S.◌∷◌ c s) =
    let rest = after_newline s in if nat_eq (code c) 10 then some s else rest

-- `.lines().filter(|l| !l.trim().is_empty())`
abbrev pub full_lines : String → List String
full_lines s = filter (λ l. not (trim l == "")) (lines s)

abbrev pub tail_bytes : ℕ
tail_bytes = 131072

-- drops the first line, likely a partial one, if the reading did not begin at the start
abbrev pub whole_lines : ℕ → String → List String
whole_lines start buf = full_lines (if ltb 0 start then unwrap_or (after_newline buf) buf else buf)

unfoldable pub read_tail_lines : Files → String → List String
read_tail_lines files path = elim (files.file_len path) [
  | none ↦ []
  | some size ↦ elim (files.read_from path (size - tail_bytes)) [
    | none ↦ []
    | some buf ↦ whole_lines (size - tail_bytes) buf
  ]
]

module _ {V : Type 0} (json : Json V) (markdown_to_html : String → String) (files : Files) where
  unfoldable pub read_messages : String → ℕ → String → List (ChatMessage V)
  read_messages path limit format =
      last_messages json markdown_to_html (read_tail_lines files path) limit format

  unfoldable pub read_new_messages : String → ℕ → String → List (ChatMessage V) × ℕ
  read_new_messages path offset format = elim (files.file_len path) [
    | none ↦ ([], offset)
    | some size ↦ if leb size offset then ([], offset) else elim (files.read_from path offset) [
      | none ↦ ([], offset)
      | some buf ↦ (parse_lines json markdown_to_html (full_lines buf) format, size)
    ]
  ]
