-- ===== src/Table/Laws.antt =====
-- The laws of `HashMap` that the components rely on, in `if` form.
use agent_dash.Prelude.{
  String, ◌≡◌, refl, Bool, true, Option, none, some, [], ◌∷◌, arith, ◌==◌, eq_iff, if◌then◌else◌,
  map_option, Bool-cases, inl, inr,
}
use agent_dash.Table.{Table, lookup, insert, remove, update, retain, any_entry, IsUnique}

module _ {ℓ} {V : Type ℓ} where
  pub lookup-insert :
      (key j : String) (value : V) (entries : Table V)
      → lookup j (insert key value entries) ≡ (if key == j then some value else lookup j entries)
  unfolding insert lookup
  lookup-insert key j value [] = refl
  lookup-insert key j value ((i, old) ∷ rest) =
      ground (arith, eq_iff i key, eq_iff i j, eq_iff key j, lookup-insert key j value rest)

  pub lookup-remove :
      (k j : String) (m : Table V) → lookup j (remove k m) ≡ (if k == j then none else lookup j m)
  unfolding lookup remove
  lookup-remove k j [] = ground arith
  lookup-remove k j ((i, w) ∷ m) =
      ground (arith, lookup-remove k j m, eq_iff i k, eq_iff i j, eq_iff k j)

  pub lookup-update :
      (k j : String) (f : V → V) (m : Table V)
      → lookup j (update k f m) ≡ (if k == j then map_option f (lookup j m) else lookup j m)
  unfolding lookup update
  lookup-update k j f [] = ground arith
  lookup-update k j f ((i, w) ∷ m) =
      ground (arith, lookup-update k j f m, eq_iff i k, eq_iff i j, eq_iff k j)

  pub update-absent : (k : String) (f : V → V) (m : Table V) → lookup k m ≡ none → update k f m ≡ m
  unfolding lookup update
  update-absent k f [] e = refl
  update-absent k f ((i, w) ∷ m) e = ground (arith, update-absent k f m)

  abbrev pub keep_if : (V → Bool) → Option V → Option V
  keep_if p none = none
  keep_if p (some v) = if p v then some v else none

  lookup-retain_absent :
      (p : String → V → Bool) (j : String) (m : Table V)
      → lookup j m ≡ none
      → lookup j (retain p m) ≡ none
  unfolding lookup retain
  lookup-retain_absent p j [] h = refl
  lookup-retain_absent p j ((i, w) ∷ m) h = ground (arith, lookup-retain_absent p j m)

  pub lookup-retain :
      (p : String → V → Bool) (j : String) (m : Table V)
      → IsUnique m
      → lookup j (retain p m) ≡ keep_if (p j) (lookup j m)
  unfolding lookup retain
  lookup-retain p j [] u = refl
  lookup-retain p j ((i, w) ∷ m) u =
      ground (arith, lookup-retain p j m u.1, lookup-retain_absent p j m, eq_iff i j)

  pub insert-IsUnique : (k : String) (v : V) (m : Table V) → IsUnique m → IsUnique (insert k v m)
  unfolding insert lookup
  insert-IsUnique k v [] u = (refl, tt)
  insert-IsUnique k v ((i, w) ∷ m) u =
      ground (arith, insert-IsUnique k v m u.1, lookup-insert k i v m, eq_iff i k, eq_iff k i)

  pub remove-IsUnique : (k : String) (m : Table V) → IsUnique m → IsUnique (remove k m)
  unfolding remove
  remove-IsUnique k [] u = tt
  remove-IsUnique k ((i, w) ∷ m) u = ground (arith, remove-IsUnique k m u.1, lookup-remove k i m)

  pub update-IsUnique :
      (k : String) (f : V → V) (m : Table V) → IsUnique m → IsUnique (update k f m)
  unfolding update
  update-IsUnique k f [] u = tt
  update-IsUnique k f ((i, w) ∷ m) u =
      ground (arith, update-IsUnique k f m u.1, lookup-update k i f m)

  pub retain-IsUnique : (p : String → V → Bool) (m : Table V) → IsUnique m → IsUnique (retain p m)
  unfolding retain
  retain-IsUnique p [] u = tt
  retain-IsUnique p ((i, w) ∷ m) u =
      ground (arith, retain-IsUnique p m u.1, lookup-retain_absent p i m)

  -- An entry that passes the test is found by `any`.
  pub any_entry-lookup :
      (p : String → V → Bool) (j : String) (v : V) (m : Table V)
      → lookup j m ≡ some v
      → p j v ≡ true
      → any_entry p m ≡ true
  unfolding lookup
  any_entry-lookup p j v [] e h = ground arith
  any_entry-lookup p j v ((i, w) ∷ m) e h = ground (arith, any_entry-lookup p j v m, eq_iff i j)

  -- In a table without double keys, `any` finds an entry only if some key has one.
  pub lookup_of_any_entry :
      (p : String → V → Bool) (m : Table V)
      → IsUnique m
      → any_entry p m ≡ true
      → (j : String) × (v : V) × (lookup j m ≡ some v) × (p j v ≡ true)
  unfolding lookup
  lookup_of_any_entry p [] u h = ground arith
  lookup_of_any_entry p ((i, w) ∷ m) u h = elim (Bool-cases (p i w)) [
    | inl hit ↦ (i, w, ground (arith, eq_iff i i), hit)
    | inr miss ↦
        let (j, v, e, q) = lookup_of_any_entry p m u.1 (ground arith) in
        (j, v, ground (arith, eq_iff i j), q)
  ]

pub ruleset table_laws = (lookup-insert, lookup-remove, lookup-update)
