-- ===== src/Messages/Truncate.antt =====
-- Where long texts are cut.
use agent_dash.Prelude.{
  ℕ, zero, suc, ◌≤◌, ◌<◌, String, true, ◌≡◌, inl, inr, arith, leb, if_true, if_false, Bool-cases,
}
use Prim.Native.String.{◌++◌, len, slice}
use package.text.Mathlib.Text.{is_char_boundary}
use package.text.Mathlib.TextPositions.{boundary-zero}
use package.text.Mathlib.TextEquality.{slice-prefix}
use package.text.Mathlib.TextBridge.{IsPrefix}
use agent_dash.Messages.{boundary_below, truncate_output}

boundary_below-le : (s : String) (n : ℕ) → boundary_below s n ≤ n
unfolding boundary_below
boundary_below-le s zero = omega arith
boundary_below-le s (suc n) = ground (arith, boundary_below-le s n)

boundary_below-max :
    (s : String) (n j : ℕ) → j ≤ n → is_char_boundary s j ≡ true → j ≤ boundary_below s n
unfolding boundary_below
boundary_below-max s zero j h b = omega (arith, h)
boundary_below-max s (suc n) j h b = elim (Bool-cases (is_char_boundary s (suc n))) [
  | inl there ↦ rw there h
  | inr between ↦ rw between (boundary_below-max s n j (ground (arith, h, b, between)) b)
]

boundary_below-boundary : (s : String) (n : ℕ) → is_char_boundary s (boundary_below s n) ≡ true
unfolding boundary_below
boundary_below-boundary s zero = boundary-zero s
boundary_below-boundary s (suc n) = elim (Bool-cases (is_char_boundary s (suc n))) [
  | inl there ↦ rw there there
  | inr between ↦ rw between (boundary_below-boundary s n)
]

len-cut : (s : String) (k : ℕ) → is_char_boundary s k ≡ true → len (slice s 0 k) ≡ k
len-cut s k b = ground (arith, b)

-- An output of more bytes than the bound is cut to a prefix of at most that many bytes, followed by
-- three dots; the cut is at a character boundary, and no later boundary is within the bound. An
-- output of no more bytes is left whole.
pub truncate_output_lem :
    (s short : String) (max_chars j : ℕ)
    → len short ≤ max_chars
    → max_chars < len s
    → j ≤ max_chars
    → is_char_boundary s j ≡ true
    → (truncate_output short max_chars ≡ short)
      × ((kept : String) × (truncate_output s max_chars ≡ kept ++ "...")
          × IsPrefix kept s
          × (len kept ≤ max_chars)
          × (j ≤ len kept))
unfolding truncate_output
truncate_output_lem s short max_chars j fits long near boundary =
    let k = boundary_below s max_chars in
    let cut = len-cut s k (boundary_below-boundary s max_chars) in
    (
      if_true {b = leb (len short) max_chars} _ _ (ground (arith, fits)),
      (
        slice s 0 k,
        if_false {b = leb (len s) max_chars} _ _ (ground (arith, long)),
        slice-prefix s k,
        omega (arith, cut, boundary_below-le s max_chars),
        omega (arith, cut, boundary_below-max s max_chars j near boundary),
      ),
    )
