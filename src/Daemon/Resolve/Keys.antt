-- ===== src/Daemon/Resolve/Keys.antt =====
-- Which session a text resolves to.
use agent_dash.Prelude.{
  String, true, false, ◌≡◌, refl, subst, sym, ◌⊎◌, inl, inr, none, some, [], ◌∷◌, arith, ◌==◌,
  eq_iff, eq_refl, Bool-cases, map_option,
}
use text.Mathlib.Text.{starts_with}
use text.Mathlib.TextPositions.{starts_with_of_prefix}
use text.Mathlib.TextLemmas.{append-nil}
use agent_dash.Table.{Table, lookup, contains_key, IsUnique}
use agent_dash.State.{DaemonState}
use agent_dash.Daemon.Resolve.{the_only, with_prefix, resolve_session_key}

starts_with_self : (s : String) → starts_with s s ≡ true
starts_with_self s = starts_with_of_prefix s s ("", append-nil s)

module _ {ℓ} {A : Type ℓ} where
  with_prefix-none :
      (id j : String) (m : Table A)
      → with_prefix id m ≡ []
      → contains_key j m ≡ true
      → starts_with j id ≡ false
  unfolding lookup
  with_prefix-none id j [] e h = ground arith
  with_prefix-none id j ((i, a) ∷ m) e h = ground (arith, with_prefix-none id j m, eq_iff i j)

  -- the key that alone has a prefix is in the table, has the prefix, and no other key has it
  the_only-with_prefix :
      (id k j : String) (m : Table A)
      → map_option (λ e. e.0) (the_only (with_prefix id m)) ≡ some k
      → contains_key j m ≡ true
      → starts_with j id ≡ true
      → j ≡ k
  unfolding lookup
  the_only-with_prefix id k j [] e h s = ground arith
  the_only-with_prefix id k j ((i, a) ∷ m) e h s =
      ground (arith, the_only-with_prefix id k j m, with_prefix-none id j m, eq_iff i j)

  -- an entry that has the prefix, where there is one
  first-with_prefix :
      (id : String) (m : Table A)
      → (with_prefix id m ≡ [])
        ⊎ ((j : String) × (contains_key j m ≡ true) × (starts_with j id ≡ true))
  unfolding lookup
  first-with_prefix id [] = inl refl
  first-with_prefix id ((i, a) ∷ m) = elim (Bool-cases (starts_with i id)) [
    | inl has ↦ inr (i, ground (arith, eq_refl i), has)
    | inr lacks ↦ elim (first-with_prefix id m) [
      | inl nothing ↦ inl (ground (arith, lacks, nothing))
      | inr (j, there, found) ↦ inr (j, ground (arith, there), found)
    ]
  ]

  the_only-found :
      (id k : String) (m : Table A)
      → map_option (λ e. e.0) (the_only (with_prefix id m)) ≡ some k
      → (contains_key k m ≡ true) × (starts_with k id ≡ true)
  unfolding lookup
  the_only-found id k [] e = ground arith
  the_only-found id k ((i, a) ∷ m) e = elim (Bool-cases (starts_with i id)) [
    | inl has ↦ ground (arith, the_only-found id k m, eq_iff i k, has)
    | inr lacks ↦ ground (arith, the_only-found id k m, eq_iff i k, lacks)
  ]

  -- where no entry alone has the prefix, a key that has it is not the only one
  the_only-ambiguous :
      (id k : String) (m : Table A)
      → IsUnique m
      → the_only (with_prefix id m) ≡ none
      → contains_key k m ≡ true
      → starts_with k id ≡ true
      → (j : String) × (contains_key j m ≡ true) × (starts_with j id ≡ true) × ((j == k) ≡ false)
  unfolding lookup
  the_only-ambiguous id k [] u e h s = ground arith
  the_only-ambiguous id k ((i, a) ∷ m) u e h s = elim (Bool-cases (i == k)) [
    | inl own ↦ elim (first-with_prefix id m) [
      | inl nothing ↦ ground (arith, eq_iff i k, own, nothing)
      | inr (j, there, found) ↦
          (j, ground (arith, there), found, ground (arith, eq_iff i k, eq_iff j k, u.0, own, there))
    ]
    | inr other ↦ elim (Bool-cases (starts_with i id)) [
      | inl has ↦ (i, ground (arith, eq_refl i), has, other)
      | inr lacks ↦
          let (j, there, found, apart) =
            the_only-ambiguous id k m u.1 (ground (arith, lacks, e)) (ground (arith, other, h)) s in
          (j, ground (arith, there), found, apart)
    ]
  ]

module _ {V : Type 0} where
  -- The session that a text resolves to is tracked and starts with the text, and it is the text
  -- itself or else the only tracked session that starts with it.
  pub resolve_session_key_sound :
      (id k j : String) (st : DaemonState V)
      → resolve_session_key id st ≡ some k
      → contains_key j st.sessions ≡ true
      → starts_with j id ≡ true
      → (contains_key k st.sessions ≡ true) × (starts_with k id ≡ true) × ((k ≡ id) ⊎ (j ≡ k))
  unfolding resolve_session_key
  resolve_session_key_sound id k j st e h s = elim (Bool-cases (contains_key id st.sessions)) [
    | inl exact ↦
        let own : k ≡ id = ground (arith, exact, e) in
        (
          subst (λ i. contains_key i st.sessions ≡ true) (sym own) exact,
          subst (λ i. starts_with i id ≡ true) (sym own) (starts_with_self id),
          inl own,
        )
    | inr absent ↦
        let only : map_option (λ e. e.0) (the_only (with_prefix id st.sessions)) ≡ some k =
          ground (arith, absent, e) in
        let found = the_only-found id k st.sessions only in
        (found.0, found.1, inr (the_only-with_prefix id k j st.sessions only h s))
  ]

  -- A text that a tracked session starts with resolves to nothing only if another tracked session
  -- starts with it too and the text itself is not tracked.
  pub resolve_session_key_ambiguous :
      (id k : String) (st : DaemonState V)
      → IsUnique st.sessions
      → resolve_session_key id st ≡ none
      → contains_key k st.sessions ≡ true
      → starts_with k id ≡ true
      → (j : String) × (contains_key j st.sessions ≡ true)
        × (starts_with j id ≡ true)
        × ((j == k) ≡ false)
        × (contains_key id st.sessions ≡ false)
  unfolding resolve_session_key
  resolve_session_key_ambiguous id k st u e h s = elim (Bool-cases (contains_key id st.sessions)) [
    | inl exact ↦ ground (arith, exact, e)
    | inr absent ↦
        let (j, there, found, apart) =
          the_only-ambiguous id k st.sessions u (ground (arith, absent, e)) h s in
        (j, there, found, apart, absent)
  ]
