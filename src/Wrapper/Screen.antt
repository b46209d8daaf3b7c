-- ===== src/Wrapper/Screen.antt =====
-- crates/agent-dash/src/wrapper.rs: what is read off the agent's screen. `vt100::Screen` is known by
-- its size, by whether it is the alternate one, and by its cells.
use agent_dash.Prelude.{
  ℕ, zero, suc, ◌+◌, ◌-◌, String, Bool, true, false, Option, none, some, List, [], ◌∷◌, ◌==◌, ◌||◌,
  ◌&&◌, not, if◌then◌else◌, ltb,
}
use Prim.Native.String.{◌++◌}
use agent_dash.Messages.Strings.{trim, contains}

pub record Cell : Type 0 where
  pub contents : String
  pub dim : Bool

pub record Screen : Type 0 where
  pub alternate_screen : Bool
  pub rows : ℕ
  pub width : ℕ
  pub cell : (row col : ℕ) → Option Cell

abbrev pub is_prompt : Option Cell → Bool
is_prompt none = false
is_prompt (some cell) = cell.contents == "❯" || cell.contents == ">"

-- `if ch.is_empty() { " " } else { ch }`
abbrev pub or_blank : String → String
or_blank ch = if ch == "" then " " else ch

-- `for r in (0..rows).rev()` over a body that may return: `none` goes on to the row above
unfoldable pub from_bottom : (ℕ → Option (Option String)) → ℕ → Option String
from_bottom body zero = none
from_bottom body (suc r) =
    let above = from_bottom body r in elim (body r) [ none ↦ above | some result ↦ result ]

module _ (screen : Screen) (r : ℕ) where
  -- the loop over the columns that may hold the prompt, `n` of them from `c` on
  unfoldable pub prompt_from : (n c : ℕ) → Option ℕ
  prompt_from zero c = none
  prompt_from (suc n) c =
      let later = prompt_from n (c + 1) in if is_prompt (screen.cell r c) then some c else later

  -- the dim cells among the `n` columns from `c` on, and whether another one has contents
  unfoldable pub dim_parts_from : (n c : ℕ) → List (ℕ × String) × Bool
  dim_parts_from zero c = ([], false)
  dim_parts_from (suc n) c =
      let (parts, other) = dim_parts_from n (c + 1) in
      elim (screen.cell r c) [
        | none ↦ ([], false)
        | some cell ↦
            if cell.contents == ""
            then (parts, other)
            else if cell.dim
            then ((c, cell.contents) ∷ parts, other)
            else (parts, true)
      ]

  -- the `n` cells from column `g` on, whatever they hold
  unfoldable pub fill : (n g : ℕ) → String → String
  fill zero g text = text
  fill (suc n) g text =
      fill n (g + 1)
        (elim (screen.cell r g) [ none ↦ text | some cell ↦ text ++ or_blank cell.contents ])

  -- the loop over the parts after the first, up to a large gap
  unfoldable pub join_parts : ℕ → String → List (ℕ × String) → String
  join_parts prev text [] = text
  join_parts prev text ((col, part) ∷ parts) =
      let rest = join_parts col (fill (col - (prev + 1)) (prev + 1) text ++ part) parts in
      if ltb 3 (col - prev) then text else rest

  abbrev pub parts_text : List (ℕ × String) → String
  parts_text [] = ""
  parts_text ((col, part) ∷ parts) = join_parts col part parts

  -- what a row with the prompt in column `pcol` has: a suggestion, none, or nothing that counts
  unfoldable pub suggestion_at : ℕ → Option (Option String)
  suggestion_at pcol =
      let (parts, other) = dim_parts_from (screen.width - (pcol + 1)) (pcol + 1) in
      let trimmed = trim (parts_text parts) in
      if not (trimmed == "")
      then some (some trimmed)
      else if other || ltb pcol (screen.width - 1)
      then some none
      else none

  unfoldable pub suggestion_row : Option (Option String)
  suggestion_row = elim (prompt_from 4 0) [ none ↦ none | some pcol ↦ suggestion_at pcol ]

  -- the text of the row up to the first column without a cell
  unfoldable pub row_text : (n c : ℕ) → String
  row_text zero c = ""
  row_text (suc n) c =
      let rest = row_text n (c + 1) in
      elim (screen.cell r c) [ none ↦ "" | some cell ↦ or_blank cell.contents ++ rest ]

unfoldable pub detect_suggestion : Screen → Option String
detect_suggestion screen =
    if screen.alternate_screen then none else from_bottom (suggestion_row screen) screen.rows

unfoldable pub is_spinner_char : String → Bool
is_spinner_char s = s == "·" || s == "✢" || s == "*" || s == "✳" || s == "✶" || s == "✻" || s == "✽"

unfoldable pub thinking_row : Screen → ℕ → Option (Option String)
thinking_row screen r = elim (screen.cell r 0) [
  | none ↦ none
  | some cell ↦
      let trimmed = trim (row_text screen r screen.width 0) in
      if not (is_spinner_char cell.contents)
      then none
      else if not (trimmed == "") && contains trimmed "…"
      then some (some trimmed)
      else none
]

unfoldable pub detect_thinking_text : Screen → Option String
detect_thinking_text screen =
    if screen.alternate_screen then none else from_bottom (thinking_row screen) screen.rows
