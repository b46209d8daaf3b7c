-- ===== src/Table.antt =====
-- `std::collections::HashMap<String, V>` as an association list. The order of the list stands for
-- the map's iteration order, which the source leaves open.
pub mod Laws
pub mod Reordered
pub mod HashMap
use agent_dash.Prelude.{
  String, Bool, true, false, Option, none, some, List, [], ◌∷◌, ◌==◌, if◌then◌else◌, is_some, map,
  any, ◌≡◌,
}

abbrev pub Table {ℓ} : Type ℓ → Type ℓ
Table V = List (String × V)

module _ {ℓ} {V : Type ℓ} where
  -- `get`
  unfoldable pub lookup : String → Table V → Option V
  lookup key [] = none
  lookup key ((name, value) ∷ rest) = if name == key then some value else lookup key rest

  -- `contains_key`
  abbrev pub contains_key : String → Table V → Bool
  contains_key k m = is_some (lookup k m)

  -- `insert`
  unfoldable pub insert : String → V → Table V → Table V
  insert key value [] = (key, value) ∷ []
  insert key value ((name, old) ∷ rest) =
      if name == key then (name, value) ∷ rest else (name, old) ∷ insert key value rest

  -- `remove`
  unfoldable pub remove : String → Table V → Table V
  remove k [] = []
  remove k ((j, v) ∷ m) = let rest = remove k m in if j == k then rest else (j, v) ∷ rest

  -- a write through `get_mut`
  unfoldable pub update : String → (V → V) → Table V → Table V
  update k f [] = []
  update k f ((j, v) ∷ m) = if j == k then (j, f v) ∷ m else (j, v) ∷ update k f m

  -- `retain`
  unfoldable pub retain : (String → V → Bool) → Table V → Table V
  retain p [] = []
  retain p ((j, v) ∷ m) = let rest = retain p m in if p j v then (j, v) ∷ rest else rest

  -- `keys`, `values`
  abbrev pub keys : Table V → List String
  keys = map λ e. e.0

  abbrev pub values : Table V → List V
  values = map λ e. e.1

  -- `iter().any`
  abbrev pub any_entry : (String → V → Bool) → Table V → Bool
  any_entry p = any λ e. p e.0 e.1

  -- No key has two entries.
  abbrev pub IsUnique : Table V → Type 0
  IsUnique [] = Unit
  IsUnique ((j, _) ∷ m) = (contains_key j m ≡ false) × IsUnique m
