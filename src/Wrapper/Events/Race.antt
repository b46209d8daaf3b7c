-- ===== src/Wrapper/Events/Race.antt =====
-- The size of the pseudo terminal, which two threads set.
use agent_dash.Prelude.{
  ℕ, ◌^◌, ◌<◌, true, false, Option, none, some, List, [], ◌∷◌, ◌≡◌, refl, sym, subst, ◌&&◌, arith,
  nat_eq, if_true, if_false,
}
use agent_dash.Protocol.{ServerEvent, terminal_resize}
use agent_dash.Wrapper.TermSize.{load, load-store}
use agent_dash.Wrapper.Events.{Sizes, resize, begin_redraw, end_redraw, follow_terminal, on_event}

abbrev pub IsU16 : ℕ × ℕ → Type 0
IsU16 (cols, rows) = (cols < 2 ^ 16) × (rows < 2 ^ 16)

abbrev pub IsSize : Option (ℕ × ℕ) → Type 0
IsSize none = Unit
IsSize (some size) = IsU16 size

-- a whole event of the daemon, or a round of the resize thread
pub data Change (V : Type 0) : Type 0 where
  event : (event : ServerEvent V) → Change V
  followed : (size : Option (ℕ × ℕ)) → Change V

-- the pseudo terminal has the size that the parser is given
abbrev pub IsAgreed : Sizes → Type 0
IsAgreed s = s.pty ≡ load s.term_size

module _ {V : Type 0} where
  abbrev pub IsFitting : Change V → Type 0
  IsFitting (event (terminal_resize cols rows)) = IsU16 (cols, rows)
  IsFitting (followed size) = IsSize size
  IsFitting _ = Unit

  abbrev pub AllFit : List (Change V) → Type 0
  AllFit [] = Unit
  AllFit (c ∷ cs) = IsFitting c × AllFit cs

  unfoldable pub apply_all : List (Change V) → Sizes → Sizes
  apply_all [] s = s
  apply_all (event e ∷ changes) s = apply_all changes (on_event e s)
  apply_all (followed size ∷ changes) s = apply_all changes (follow_terminal size s)

-- If the terminal is resized between the two halves of a redraw, the pseudo terminal is left with the
-- old size while the parser has the new one, and the resize thread does not set it right as long as
-- the terminal keeps its new size.
pub redraw_undoes_resize :
    (cols rows : ℕ) (s : Sizes)
    → IsU16 (cols, rows)
    → (nat_eq cols s.last_size.0 && nat_eq rows s.last_size.1) ≡ false
    → let s' = end_redraw (follow_terminal (some (cols, rows)) (begin_redraw s)) in
      (s'.pty ≡ load s.term_size)
      × (load s'.term_size ≡ (cols, rows))
      × (follow_terminal (some (cols, rows)) s' ≡ s')
unfolding begin_redraw end_redraw follow_terminal resize
redraw_undoes_resize cols rows s h new =
    let during = record (resize cols rows (begin_redraw s)) { last_size = (cols, rows) } in
    let found : follow_terminal (some (cols, rows)) (begin_redraw s) ≡ during = if_false _ _ new in
    let same : nat_eq cols cols && nat_eq rows rows ≡ true = ground arith in
    subst
      (λ m.
        ((end_redraw m).pty ≡ load s.term_size)
        × (load (end_redraw m).term_size ≡ (cols, rows))
        × (follow_terminal (some (cols, rows)) (end_redraw m) ≡ end_redraw m))
      (sym found) (refl, (load-store cols rows s.term_size h.0 h.1).0, if_true _ _ same)
