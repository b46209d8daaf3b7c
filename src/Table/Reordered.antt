-- ===== src/Table/Reordered.antt =====
-- The iteration order of a `HashMap`, which Rust leaves open: two tables that differ in it alone.
use agent_dash.Prelude.{
  String, Bool, false, ◌≡◌, refl, ◌∙◌, ◌∷◌, arith, ◌==◌, eq_iff, filter, is_empty, Bool-cases, inl,
  inr,
}
use agent_dash.Table.{Table, lookup}

pub data Reordered {ℓ} {V : Type ℓ} : Table V → Table V → Type ℓ where
  same : (m : Table V) → Reordered m m
  swap : (a b : String × V) (m : Table V) → (a.0 == b.0) ≡ false → Reordered (a ∷ b ∷ m) (b ∷ a ∷ m)
  cons : (a : String × V) {m m' : Table V} → Reordered m m' → Reordered (a ∷ m) (a ∷ m')
  trans : {m m' m'' : Table V} → Reordered m m' → Reordered m' m'' → Reordered m m''

module _ {ℓ} {V : Type ℓ} where
  -- A key is found wherever it stands.
  pub lookup-Reordered : (k : String) {m m' : Table V} → Reordered m m' → lookup k m ≡ lookup k m'
  unfolding lookup
  lookup-Reordered k (same m) = refl
  lookup-Reordered k (swap a b m h) = ground (arith, h, eq_iff a.0 k, eq_iff b.0 k, eq_iff a.0 b.0)
  lookup-Reordered k (cons a r) = ground (arith, lookup-Reordered k r)
  lookup-Reordered k (trans r s) = lookup-Reordered k r ∙ lookup-Reordered k s

  pub is_empty-Reordered : {m m' : Table V} → Reordered m m' → is_empty m ≡ is_empty m'
  is_empty-Reordered (same m) = refl
  is_empty-Reordered (swap a b m h) = refl
  is_empty-Reordered (cons a r) = refl
  is_empty-Reordered (trans r s) = is_empty-Reordered r ∙ is_empty-Reordered s

  pub filter-Reordered :
      (p : String × V → Bool) {m m' : Table V}
      → Reordered m m'
      → Reordered (filter p m) (filter p m')
  filter-Reordered p (same m) = same _
  filter-Reordered p (swap a b m h) = elim (Bool-cases (p a)) [
    | inl pa ↦ elim (Bool-cases (p b)) [
      | inl pb ↦ rw (pa, pb) (swap a b (filter p m) h)
      | inr pb ↦ rw (pa, pb) (same _)
    ]
    | inr pa ↦ rw pa (same _)
  ]
  filter-Reordered p (cons a r) = elim (Bool-cases (p a)) [
    | inl pa ↦ rw pa (cons a (filter-Reordered p r))
    | inr pa ↦ rw pa (filter-Reordered p r)
  ]
  filter-Reordered p (trans r s) = trans (filter-Reordered p r) (filter-Reordered p s)
