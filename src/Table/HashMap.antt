-- ===== src/Table/HashMap.antt =====
-- `HashMap<String, V>` without the iteration order that its tables have: a quotient, whose elements
-- are told apart by `get` alone.
use mathlib.Core.Quot
use mathlib.Core.Quot.{Quot, Quot-set}
use mathlib.Core.Option.{is_set as Option-set}
use agent_dash.Prelude.{
  String, Option, some, ◌≡◌, refl, [], ◌∷◌, arith, ◌==◌, eq_iff, eq_refl, subst, false, ap,
  Bool-cases, inl, inr,
}
use agent_dash.Table.{Table, IsUnique, lookup, remove, contains_key}
use agent_dash.Table.Laws.{lookup-remove, remove-IsUnique}
use agent_dash.Table.Reordered.{Reordered, same, swap, cons, trans, lookup-Reordered}

module _ {V : Type 0} where
  abbrev pub Agree : Table V → Table V → Type 0
  Agree m m' = (k : String) → lookup k m ≡ lookup k m'

  Reordered_sym : {m m' : Table V} → Reordered m m' → Reordered m' m
  Reordered_sym (same m) = same m
  Reordered_sym (swap a b m h) = swap b a m (ground (arith, h, eq_iff a.0 b.0, eq_iff b.0 a.0))
  Reordered_sym (cons a r) = cons a (Reordered_sym r)
  Reordered_sym (trans r s) = trans (Reordered_sym s) (Reordered_sym r)

  remove-absent : (k : String) (m : Table V) → contains_key k m ≡ false → remove k m ≡ m
  unfolding lookup remove
  remove-absent k [] e = refl
  remove-absent k ((i, w) ∷ m) e = ground (arith, remove-absent k m)

  -- the entry of a key can stand first
  in_front :
      (k : String) (v : V) (m : Table V)
      → IsUnique m
      → lookup k m ≡ some v
      → Reordered m ((k, v) ∷ remove k m)
  unfolding lookup remove
  in_front k v [] u e = ground (arith, e)
  in_front k v ((i, w) ∷ m) u e = elim (Bool-cases (i == k)) [
    | inl here ↦
        let moved : ◌≡◌ {A = Table V} ((i, w) ∷ m) ((k, v) ∷ remove k ((i, w) ∷ m)) =
          ground (arith, e, here, eq_iff i k, remove-absent k m, u.0) in
        subst (Reordered ((i, w) ∷ m)) moved (same _)
    | inr elsewhere ↦ rw elsewhere (
        trans (cons (i, w) (in_front k v m u.1 (ground (arith, e, elsewhere))))
          (swap (i, w) (k, v) (remove k m) elsewhere))
  ]

  -- Tables that hold the same under each key differ in their order alone.
  pub Reordered_of_agree : (m m' : Table V) → IsUnique m → IsUnique m' → Agree m m' → Reordered m m'
  unfolding lookup
  Reordered_of_agree [] [] u u' h = same []
  Reordered_of_agree [] ((i, w) ∷ m') u u' h = ground (arith, h i, eq_refl i)
  Reordered_of_agree ((i, w) ∷ m) m' u u' h =
      trans
        (cons (i, w)
          (Reordered_of_agree m (remove i m') u.1 (remove-IsUnique i m' u')
            λ k. ground (arith, h k, lookup-remove i k m', eq_iff i k, u.0)))
        (Reordered_sym (in_front i w m' u' (ground (arith, h i, eq_refl i))))

abbrev pub HashMap : Type 0 → Type 0
HashMap V = Quot {α = (m : Table V) × IsUnique m} (λ a b. Reordered a.0 b.0)

abbrev pub of_table : {V : Type 0} → (m : Table V) → IsUnique m → HashMap V
of_table m u = Quot.mk (m, u)

module _ {V : Type 0} (is_set : IsSet V) where
  unfoldable get : String → HashMap V → Option V
  get k = Quot.lift (Option-set is_set) (λ a. lookup k a.0) (λ a b r. lookup-Reordered k r)

  -- One map can have two tables only if they hold the same under each key, and so differ in their order.
  pub exact :
      (m m' : Table V) (u : IsUnique m) (u' : IsUnique m')
      → of_table m u ≡ of_table m' u'
      → Reordered m m'
  unfolding get
  exact m m' u u' e = Reordered_of_agree m m' u u' λ k. ap (get k) e
