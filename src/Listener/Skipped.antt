-- ===== src/Listener/Skipped.antt =====
-- Lines that are no requests.
use agent_dash.Prelude.{
  Bool, true, false, some, List, [], ◌∷◌, ◌≡◌, sym, ap, subst, ◌∙◌, arith, Option-cases, Bool-cases,
  inl, inr, is_some, filter, ◌>>=◌,
}
use agent_dash.Listener.{Codec, Mode, reading, wrapping, Conn, Input, line, request_of, step, run}

module _ {V : Type 0} (codec : Codec V) where
  -- anything but a line that is blank or cannot be decoded
  abbrev pub is_meant : Input V → Bool
  is_meant (line text) = is_some (request_of codec text)
  is_meant _ = true

  junk-step :
      (i : Input V) (mode : Mode V) (c c' : Conn V)
      → is_meant i ≡ false
      → step codec i mode c ≡ some c'
      → c ≡ c'
  unfolding step
  junk-step (line text) reading c c' junk s = ground (arith, junk, s)
  junk-step (line text) (wrapping sid) c c' junk s = ground (arith, junk, s)
  junk-step _ _ c c' junk s = cc

  pub run-step :
      (i : Input V) (inputs : List (Input V)) (c c₁ : Conn V)
      → step codec i c.mode c ≡ some c₁
      → run codec (i ∷ inputs) c ≡ run codec inputs c₁
  unfolding run
  run-step i inputs c c₁ stepped = ap (λ o. o >>= run codec inputs) stepped

  -- A line that is blank or no request does nothing: what a connection sends, writes and waits for
  -- is the same without such lines.
  pub run-is_meant :
      (inputs : List (Input V)) (c c' : Conn V)
      → run codec inputs c ≡ some c'
      → run codec (filter is_meant inputs) c ≡ some c'
  unfolding run
  run-is_meant [] c c' r = r
  run-is_meant (i ∷ inputs) c c' r = elim (Option-cases (step codec i c.mode c)) [
    | inl stuck ↦ absurd (ground (arith, stuck, r))
    | inr (c₁, stepped) ↦
        let kept = run-is_meant inputs c₁ c' (sym (run-step i inputs c c₁ stepped) ∙ r) in
        elim (Bool-cases (is_meant i)) [
          | inl meant ↦ rw (meant, filter) (run-step i (filter is_meant inputs) c c₁ stepped ∙ kept)
          | inr junk ↦
              rw (junk, filter)
                (subst (λ x. run codec (filter is_meant inputs) x ≡ some c')
                  (sym (junk-step i c.mode c c₁ junk stepped)) kept)
        ]
  ]
