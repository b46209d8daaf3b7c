-- ===== src/Wrapper/Threads/Batches.antt =====
-- The output of the agent, cut into batches.
use mathlib.Core.List.{append_assoc}
use agent_dash.Prelude.{
  ℕ, zero, suc, ◌≤◌, some, List, [], ◌∷◌, ◌++◌, ◌≡◌, refl, ap, ◌∙◌, arith, Bool-cases, inl, inr,
  ltb, length, length-append, All, Bool, true, map, ◌||◌,
}
use agent_dash.Wrapper.Threads.{Link, drain, batches}

-- the bytes of some chunks, one after the other
abbrev pub bytes_of : List (List ℕ) → List ℕ
bytes_of [] = []
bytes_of (chunk ∷ chunks) = chunk ++ bytes_of chunks

-- no longer than the buffer that the reader fills
abbrev pub IsRead : List ℕ → Type 0
IsRead chunk = length chunk ≤ 4096

abbrev pub IsSmall : List ℕ → Type 0
IsSmall batch = length batch ≤ 20480

-- what draining does: it loses nothing, keeps the order, and takes no more than fits
record IsDrained (combined : List ℕ) (pending : List (List ℕ)) (out : List ℕ × List (List ℕ))
    : Type 0 where
  conserves : out.0 ++ bytes_of out.1 ≡ combined ++ bytes_of pending
  shrinks : length out.1 ≤ length pending
  small : IsSmall out.0
  left : All IsRead out.1

drain-IsDrained :
    (combined : List ℕ) (pending : List (List ℕ))
    → length combined ≤ 16384
    → All IsRead pending
    → IsDrained combined pending (drain combined pending)
unfolding drain
drain-IsDrained combined [] h reads = record {
  conserves = refl;
  shrinks = omega arith;
  small = omega (arith, h);
  left = tt;
}
drain-IsDrained combined (more ∷ pending) h reads =
    let size = length-append combined more in
    let together = append_assoc combined more (bytes_of pending) in
    elim (Bool-cases (ltb 16384 (length (combined ++ more)))) [
      | inl over ↦
          rw (over, drain)
            (record {
              conserves = together;
              shrinks = omega arith;
              small = omega (arith, size, h, reads.0);
              left = reads.1;
            })
      | inr under ↦
          let rest = drain-IsDrained (combined ++ more) pending (ground (arith, under)) reads.1 in
          rw (under, drain)
            (record {
              conserves = rest.conserves ∙ together;
              shrinks = omega (arith, rest.shrinks);
              small = rest.small;
              left = rest.left;
            })
    ]

-- whether the daemon takes each of so many batches, from a round on
abbrev pub verdicts : Link → (round : ℕ) → List (List ℕ × Bool) → List Bool
verdicts link round [] = []
verdicts link round (_ ∷ made) = link.takes round ∷ verdicts link (suc round) made

-- While the flag is set and every lost connection is made again, the thread that forwards the agent's
-- output empties its channel in at most as many rounds as there are chunks in it. It puts every byte
-- into one batch, in the order in which they were read, and makes each batch once, of at most 20480
-- bytes where no chunk is longer than the reader's buffer of 4096. The daemon has the batches of the
-- rounds in which it took what was sent, and those of the other rounds are lost.
pub batches_lem :
    (link : Link) (round fuel : ℕ) (pending : List (List ℕ))
    → ((n : ℕ) → link.is_running n ≡ true)
    → ((n : ℕ) → link.reconnects n ≡ true)
    → length pending ≤ fuel
    → All IsRead pending
    → (made : List (List ℕ × Bool)) × (batches link round fuel pending ≡ some made)
      × (bytes_of (map (λ m. m.0) made) ≡ bytes_of pending)
      × (map (λ m. m.1) made ≡ verdicts link round made)
      × All (λ m. IsSmall m.0) made
unfolding batches
batches_lem link round fuel [] runs again h reads = ([], refl, refl, refl, tt)
batches_lem link round zero (chunk ∷ pending) runs again h reads = absurd (omega (arith, h))
batches_lem link round (suc fuel) (chunk ∷ pending) runs again h reads =
    let out = drain chunk pending in
    let drained = drain-IsDrained chunk pending (omega (arith, reads.0)) reads.1 in
    let (later, made, bytes, flags, small) =
      batches_lem link (suc round) fuel out.1 runs again (omega (arith, drained.shrinks, h))
        drained.left in
    let goes_on : (link.takes round || link.reconnects round) ≡ true =
      ground (arith, again round) in
    (
      (out.0, link.takes round) ∷ later,
      rw (runs round, goes_on, made, batches) refl,
      ap (λ rest. out.0 ++ rest) bytes ∙ drained.conserves,
      ap (λ rest. link.takes round ∷ rest) flags,
      (drained.small, small),
    )
