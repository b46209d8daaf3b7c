-- ===== src/Wrapper/Lines.antt =====
-- Which line of the screen the suggestion and the thinking text come from.
use agent_dash.Prelude.{
  ℕ, zero, suc, ◌+◌, ◌-◌, ◌<◌, String, Bool, true, false, Option, none, some, ◌==◌, ◌&&◌,
  if◌then◌else◌, ltb, ◌≡◌, refl, arith, Option-cases, Bool-cases, inl, inr, and_then, map_option,
  is_some, eq_iff,
}
use agent_dash.Messages.Strings.{trim, contains}
use agent_dash.Wrapper.Screen.{
  Screen, from_bottom, prompt_from, dim_parts_from, parts_text, suggestion_at, suggestion_row,
  row_text, detect_suggestion, is_spinner_char, thinking_row, detect_thinking_text,
}

-- the lowest of the rows above `n` with a property
unfoldable pub lowest : (ℕ → Bool) → ℕ → Option ℕ
lowest p zero = none
lowest p (suc r) = let above = lowest p r in if p r then some r else above

-- whether a row has a prompt in its first columns
abbrev pub has_prompt : Screen → ℕ → Bool
has_prompt screen r = is_some (prompt_from screen r 4 0)

-- the suggestion on a row: the text of its dim cells after the prompt, if it is not blank
abbrev pub suggestion_on : Screen → ℕ → Option String
suggestion_on screen r = and_then (suggestion_row screen r) (λ o. o)

prompt_from-lt : (screen : Screen) (r n c p : ℕ) → prompt_from screen r n c ≡ some p → p < c + n
unfolding prompt_from
prompt_from-lt screen r zero c p e = absurd (cc)
prompt_from-lt screen r (suc n) c p e = ground (arith, prompt_from-lt screen r n (c + 1) p, e)

suggestion_at-some :
    (screen : Screen) (r p : ℕ)
    → ltb p (screen.width - 1) ≡ true
    → is_some (suggestion_at screen r p) ≡ true
unfolding suggestion_at
suggestion_at-some screen r p h =
    let text = parts_text screen r (dim_parts_from screen r (screen.width - (p + 1)) (p + 1)).0 in
    elim (Bool-cases (trim text == "")) [
      | inl blank ↦ ground (arith, blank, h)
      | inr full ↦ ground (arith, full, h)
    ]

stops_at_prompt :
    (screen : Screen) (r : ℕ)
    → 4 < screen.width
    → is_some (suggestion_row screen r) ≡ has_prompt screen r
unfolding suggestion_row
stops_at_prompt screen r wide = elim (Option-cases (prompt_from screen r 4 0)) [
  | inl no_prompt ↦ rw (no_prompt, suggestion_row) refl
  | inr (p, at) ↦
      rw (at, suggestion_row)
        (suggestion_at-some screen r p (ground (arith, prompt_from-lt screen r 4 0 p at, wide)))
]

from_bottom-lowest :
    (body : ℕ → Option (Option String)) (p : ℕ → Bool) (n : ℕ)
    → ((r : ℕ) → is_some (body r) ≡ p r)
    → from_bottom body n ≡ and_then (lowest p n) (λ r. and_then (body r) (λ o. o))
unfolding from_bottom lowest
from_bottom-lowest body p zero each = refl
from_bottom-lowest body p (suc r) each = ground (arith, each r, from_bottom-lowest body p r each)

-- On a screen of more than four columns that is not the alternate one, the suggestion is that of the
-- lowest row with a prompt in one of its first four columns, and there is none without such a row.
pub detect_suggestion-lowest :
    (screen : Screen)
    → 4 < screen.width
    → detect_suggestion screen ≡ (
        if screen.alternate_screen
        then none
        else and_then (lowest (has_prompt screen) screen.rows) (suggestion_on screen))
unfolding detect_suggestion
detect_suggestion-lowest screen wide =
    rw
      (from_bottom-lowest (suggestion_row screen) (has_prompt screen) screen.rows
        (λ r. stops_at_prompt screen r wide))
      refl

-- whether a row is a status line: it begins with a spinner's character and has an ellipsis
abbrev pub is_status : Screen → ℕ → Bool
is_status screen r = elim (screen.cell r 0) [
  | none ↦ false
  | some cell ↦
      is_spinner_char cell.contents && contains (trim (row_text screen r screen.width 0)) "…"
]

empty_has_no_ellipsis : (s : String) → (s == "") ≡ true → contains s "…" ≡ false
unfolding contains
empty_has_no_ellipsis s e = let empty : s ≡ "" = (eq_iff s "").0 e in rw empty refl

thinking_row-is_status :
    (screen : Screen) (r : ℕ)
    → thinking_row screen r
      ≡ (if is_status screen r then some (some (trim (row_text screen r screen.width 0))) else none)
unfolding thinking_row
thinking_row-is_status screen r =
    let text = trim (row_text screen r screen.width 0) in
    elim (Option-cases (screen.cell r 0)) [
      | inl off ↦ rw (off, thinking_row, is_status) refl
      | inr (cell, on) ↦ ground (arith, on, empty_has_no_ellipsis text)
    ]

from_bottom-text :
    (body : ℕ → Option (Option String)) (p : ℕ → Bool) (text : ℕ → String) (n : ℕ)
    → ((r : ℕ) → body r ≡ (if p r then some (some (text r)) else none))
    → from_bottom body n ≡ map_option text (lowest p n)
unfolding from_bottom lowest
from_bottom-text body p text zero each = refl
from_bottom-text body p text (suc r) each =
    ground (arith, each r, from_bottom-text body p text r each)

-- On a screen that is not the alternate one, the thinking text is the text of the lowest row that
-- begins with a character of the spinner and whose text has an ellipsis, without the blanks around
-- it, and there is none without such a row.
pub detect_thinking_text-lowest :
    (screen : Screen)
    → detect_thinking_text screen ≡ (
        if screen.alternate_screen
        then none
        else map_option
            (λ r. trim (row_text screen r screen.width 0))
            (lowest (is_status screen) screen.rows))
unfolding detect_thinking_text
detect_thinking_text-lowest screen =
    rw
      (from_bottom-text (thinking_row screen) (is_status screen)
        (λ r. trim (row_text screen r screen.width 0)) screen.rows (thinking_row-is_status screen))
      refl
