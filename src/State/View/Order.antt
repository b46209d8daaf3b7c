-- ===== src/State/View/Order.antt =====
-- The order in which sessions are listed.
use Prim.Native.Nat.{Ordering}
use Prim.Native.Char.{code}
use Prim.Native.Nat.{compare as compare_nat}
use Prim.Native.String.{compare, then as chain}
use Prim.Native.String.compare
use mathlib.Core.List.{Perm}
use mathlib.Core.List.Perm
use agent_dash.Prelude.{
  ℕ, String, ◌≡◌, refl, ◌∙◌, sym, ap, true, false, List, [], ◌∷◌, arith, Bool-cases, inl, inr, ◌⊎◌,
  ◌≢◌,
}
use agent_dash.Session.{DashSession}
use agent_dash.State.View.{or_else, session_cmp, not_after, place, sort_sessions}

abbrev pub swap : Ordering → Ordering
swap Ordering.lt = Ordering.gt
swap Ordering.eq = Ordering.eq
swap Ordering.gt = Ordering.lt

compare_nat-swap : (a b : ℕ) → compare_nat a b ≡ swap (compare_nat b a)
compare_nat-swap a b = ground arith

chain-swap : (o o' p p' : Ordering) → o ≡ swap o' → p ≡ swap p' → chain o p ≡ swap (chain o' p')
chain-swap o Ordering.lt p p' e f = ground arith
chain-swap o Ordering.eq p p' e f = ground arith
chain-swap o Ordering.gt p p' e f = ground arith

compare-swap : (s t : String) → compare s t ≡ swap (compare t s)
compare-swap String.[] String.[] = refl
compare-swap String.[] (String.◌∷◌ d t) =
    compare.nil-cons d t ∙ ap swap (sym (compare.cons-nil d t))
compare-swap (String.◌∷◌ c s) String.[] =
    compare.cons-nil c s ∙ ap swap (sym (compare.nil-cons c s))
compare-swap (String.◌∷◌ c s) (String.◌∷◌ d t) =
    compare.cons-cons c d s t
    ∙ chain-swap _ (compare_nat (code d) (code c)) _ (compare t s)
        (compare_nat-swap (code c) (code d)) (compare-swap s t)
    ∙ ap swap (sym (compare.cons-cons d c t s))

pub session_cmp-swap : (a b : DashSession) → session_cmp a b ≡ swap (session_cmp b a)
unfolding session_cmp
session_cmp-swap a b =
    ground (arith, compare-swap a.status b.status, compare-swap a.session_id b.session_id)

pub not_after_total : (a b : DashSession) → not_after a b ≡ false → not_after b a ≡ true
not_after_total a b h = ground (arith, session_cmp-swap a b)

-- No session of the list comes after its successor.
abbrev pub InOrder : List DashSession → Type 0
InOrder [] = Unit
InOrder (a ∷ []) = Unit
InOrder (a ∷ b ∷ rest) = (not_after a b ≡ true) × InOrder (b ∷ rest)

place-InOrder : (a : DashSession) (bs : List DashSession) → InOrder bs → InOrder (place a bs)
unfolding place
place-InOrder a [] h = tt
place-InOrder a (b ∷ []) h = ground (arith, not_after_total a b)
place-InOrder a (b ∷ c ∷ rest) h =
    ground (arith, not_after_total a b, place-InOrder a (c ∷ rest) h.1)

pub sort_sessions-InOrder : (xs : List DashSession) → InOrder (sort_sessions xs)
unfolding sort_sessions
sort_sessions-InOrder [] = tt
sort_sessions-InOrder (a ∷ xs) = place-InOrder a _ (sort_sessions-InOrder xs)

place-perm : (a : DashSession) (bs : List DashSession) → Perm (place a bs) (a ∷ bs)
unfolding place
place-perm a [] = Perm.refl _
place-perm a (b ∷ bs) = elim (Bool-cases (not_after a b)) [
  | inl before ↦ rw before (Perm.refl _)
  | inr after ↦ rw after (Perm.trans (Perm.cons b (place-perm a bs)) (Perm.swap a b bs))
]

pub sort_sessions-perm : (xs : List DashSession) → Perm (sort_sessions xs) xs
unfolding sort_sessions
sort_sessions-perm [] = Perm.refl _
sort_sessions-perm (a ∷ xs) =
    Perm.trans (place-perm a (sort_sessions xs)) (Perm.cons a (sort_sessions-perm xs))

-- The first has the lesser text of a status, or they have the same and the first has no greater id.
abbrev pub Precedes : DashSession → DashSession → Type 0
Precedes a b =
    (compare a.status b.status ≡ Ordering.lt)
    ⊎ ((compare a.status b.status ≡ Ordering.eq)
        × (compare a.session_id b.session_id ≢ Ordering.gt))

-- Every session of the list precedes its successor.
abbrev pub IsSorted : List DashSession → Type 0
IsSorted [] = Unit
IsSorted (a ∷ []) = Unit
IsSorted (a ∷ b ∷ rest) = Precedes a b × IsSorted (b ∷ rest)

not_greater :
    (o p : Ordering)
    → or_else o p ≢ Ordering.gt
    → (o ≡ Ordering.lt) ⊎ ((o ≡ Ordering.eq) × (p ≢ Ordering.gt))
not_greater Ordering.lt p h = inl refl
not_greater Ordering.eq p h = inr (refl, h)
not_greater Ordering.gt p h = absurd (h refl)

precedes : (a b : DashSession) → not_after a b ≡ true → Precedes a b
unfolding session_cmp
precedes a b h =
    not_greater (compare a.status b.status) (compare a.session_id b.session_id)
      (λ e. ground (arith, h, e))

IsSorted-of_order : (xs : List DashSession) → InOrder xs → IsSorted xs
IsSorted-of_order [] h = tt
IsSorted-of_order (a ∷ []) h = tt
IsSorted-of_order (a ∷ b ∷ rest) h = (precedes a b h.0, IsSorted-of_order (b ∷ rest) h.1)

pub sort_sessions-IsSorted : (xs : List DashSession) → IsSorted (sort_sessions xs)
sort_sessions-IsSorted xs = IsSorted-of_order _ (sort_sessions-InOrder xs)
