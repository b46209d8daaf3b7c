-- ===== src/Setup/Merged.antt =====
-- The events after their merge.
use agent_dash.Prelude.{
  String, true, false, none, some, List, [], ◌∷◌, ◌==◌, ◌||◌, ◌≡◌, refl, sym, ap, subst, ◌∙◌, ◌⊎◌,
  inl, inr, arith, Bool-cases, Option-cases, and_then, eq_refl, if_true, if_false,
}
use agent_dash.Table.{Table, lookup, insert}
use agent_dash.Table.Laws.{lookup-insert}
use agent_dash.Setup.{
  Value, is_agent_dash_command, make_hook_entry, merge_entries, or_insert, merge_event,
  merge_single_hook, merge_all,
}
use agent_dash.Setup.Entries.{IsJson, merge_entries_lem, make_hook_entry-ours}

-- none of some events is another one
abbrev pub IsApart : String → List (String × String) → Type 0
IsApart event [] = Unit
IsApart event ((other, _) ∷ events) =
    ((event == other) ≡ false) × ((other == event) ≡ false) × IsApart event events

abbrev pub AllApart : List (String × String) → Type 0
AllApart [] = Unit
AllApart ((event, command) ∷ events) =
    IsApart event events × (is_agent_dash_command command ≡ true) × AllApart events

module _ {V : Type 0} where
  -- to insert what is there already changes nothing
  pub insert-same : (k : String) (v : V) (m : Table V) → lookup k m ≡ some v → insert k v m ≡ m
  unfolding insert lookup
  insert-same k v [] h = absurd (cc)
  insert-same k v ((j, w) ∷ m) h = elim (Bool-cases (j == k)) [
    | inl here ↦ ground (arith, here, h)
    | inr there ↦ ground (arith, there, h, insert-same k v m)
  ]

  pub or_insert-lookup :
      (k : String) (v : V) (m : Table V) → (w : V) × (lookup k (or_insert k v m) ≡ some w)
  or_insert-lookup k v m = elim (Option-cases (lookup k m)) [
    | inl absent ↦ (v, rw absent (ground (arith, lookup-insert k k v m, eq_refl k)))
    | inr (w, there) ↦ (w, rw (there, or_insert) there)
  ]

  or_insert-other :
      (k j : String) (v : V) (m : Table V)
      → (k == j) ≡ false
      → lookup j (or_insert k v m) ≡ lookup j m
  or_insert-other k j v m other = ground (arith, lookup-insert k j v m, other)

  pub or_insert-there :
      (k : String) (v w : V) (m : Table V) → lookup k m ≡ some w → or_insert k v m ≡ m
  or_insert-there k v w m there = rw (there, or_insert) refl

module _ {V : Type 0} (json : Value V) (laws : IsJson json) where
  -- the value of an event that another merge leaves as it is
  unfoldable pub IsSettled : String → V → Type 0
  IsSettled command v =
      (json.as_array v ≡ none)
      ⊎ ((es : List V) × (v ≡ json.array es)
          × (merge_entries json (make_hook_entry json command) es ≡ (es, false)))

  unfoldable pub IsMerged : String → String → Table V → Type 0
  IsMerged event command hooks = (v : V) × (lookup event hooks ≡ some v) × IsSettled command v

  merge_event-array :
      (event command : String) (hooks : Table V) (v : V) (es : List V)
      → lookup event hooks ≡ some v
      → json.as_array v ≡ some es
      → merge_event json event command hooks ≡ (
        insert event (json.array (merge_entries json (make_hook_entry json command) es).0) hooks,
        (merge_entries json (make_hook_entry json command) es).1,
      )
  unfolding merge_event
  merge_event-array event command hooks v es there is_array =
      let got : and_then (lookup event hooks) json.as_array ≡ some es =
        ap (λ o. and_then o json.as_array) there ∙ is_array in
      rw (got, merge_event) refl

  merge_event-other_value :
      (event command : String) (hooks : Table V) (v : V)
      → lookup event hooks ≡ some v
      → json.as_array v ≡ none
      → merge_event json event command hooks ≡ (hooks, false)
  unfolding merge_event
  merge_event-other_value event command hooks v there no_array =
      let got : and_then (lookup event hooks) json.as_array ≡ none =
        ap (λ o. and_then o json.as_array) there ∙ no_array in
      rw (got, merge_event) refl

  merge_event-fixed :
      (event command : String) (hooks : Table V)
      → IsMerged event command hooks
      → merge_event json event command hooks ≡ (hooks, false)
  unfolding IsMerged IsSettled
  merge_event-fixed event command hooks (v, there, inl no_array) =
      merge_event-other_value event command hooks v there no_array
  merge_event-fixed event command hooks (v, there, inr (es, is_array, fixed)) =
      merge_event-array event command hooks v es there
        (ap json.as_array is_array ∙ laws.array_lem es)
      ∙ rw fixed (
          ap (λ m. (m, false))
            (insert-same event (json.array es) hooks (there ∙ ap (λ x. some x) is_array)))

  merge_single-fixed :
      (event command : String) (hooks : Table V)
      → IsMerged event command hooks
      → merge_single_hook json event command hooks ≡ (hooks, false)
  unfolding IsMerged
  merge_single-fixed event command hooks m =
      ap (merge_event json event command) (or_insert-there event (json.array []) m.0 hooks m.1)
      ∙ merge_event-fixed event command hooks m

  merge_event-IsMerged :
      (event command : String) (hooks : Table V) (v : V)
      → is_agent_dash_command command ≡ true
      → lookup event hooks ≡ some v
      → IsMerged event command (merge_event json event command hooks).0
  unfolding IsMerged IsSettled
  merge_event-IsMerged event command hooks v ok there = elim (Option-cases (json.as_array v)) [
    | inl no_array ↦
        subst (λ r. IsMerged event command r.0)
          (sym (merge_event-other_value event command hooks v there no_array))
          (v, there, inl no_array)
    | inr (es, is_array) ↦
        let target = make_hook_entry json command in
        let merged = (merge_entries json target es).0 in
        subst (λ r. IsMerged event command r.0)
          (sym (merge_event-array event command hooks v es there is_array))
          (
            json.array merged,
            lookup-insert event event (json.array merged) hooks ∙ if_true _ _ (eq_refl event),
            inr (
              merged,
              refl,
              (merge_entries_lem json target (make_hook_entry-ours json command laws ok) es laws).2,
            ),
          )
  ]

  merge_single-IsMerged :
      (event command : String) (hooks : Table V)
      → is_agent_dash_command command ≡ true
      → IsMerged event command (merge_single_hook json event command hooks).0
  merge_single-IsMerged event command hooks ok =
      let (v, there) = or_insert-lookup event (json.array []) hooks in
      merge_event-IsMerged event command (or_insert event (json.array []) hooks) v ok there

  merge_event-other :
      (event command j : String) (hooks : Table V)
      → (event == j) ≡ false
      → lookup j (merge_event json event command hooks).0 ≡ lookup j hooks
  unfolding merge_event
  merge_event-other event command j hooks other =
      elim (Option-cases (and_then (lookup event hooks) json.as_array)) [
        | inl no_array ↦ rw (no_array, merge_event) refl
        | inr (es, is_array) ↦
            rw (is_array, merge_event) (lookup-insert event j _ hooks ∙ if_false _ _ other)
      ]

  merge_single-other :
      (event command j : String) (hooks : Table V)
      → (event == j) ≡ false
      → lookup j (merge_single_hook json event command hooks).0 ≡ lookup j hooks
  merge_single-other event command j hooks other =
      merge_event-other event command j (or_insert event (json.array []) hooks) other
      ∙ or_insert-other event j (json.array []) hooks other

  -- all of some events are merged
  unfoldable pub AllMerged : List (String × String) → Table V → Type 0
  AllMerged [] hooks = Unit
  AllMerged ((event, command) ∷ events) hooks =
      IsMerged event command hooks × AllMerged events hooks

  pub merge_all-fixed :
      (events : List (String × String)) (hooks : Table V)
      → AllMerged events hooks
      → merge_all json events hooks ≡ (hooks, false)
  unfolding merge_all AllMerged
  merge_all-fixed [] hooks m = refl
  merge_all-fixed ((event, command) ∷ events) hooks m =
      let one = merge_single-fixed event command hooks m.0 in
      let rest = merge_all-fixed events hooks m.1 in
      ap (λ r. ((merge_all json events r.0).0, r.1 || (merge_all json events r.0).1)) one
      ∙ ap (λ r. (r.0, r.1)) rest

  -- the merge of other events leaves an event alone
  pub merge_all-other :
      (events : List (String × String)) (j : String) (hooks : Table V)
      → IsApart j events
      → lookup j (merge_all json events hooks).0 ≡ lookup j hooks
  unfolding merge_all
  merge_all-other [] j hooks apart = refl
  merge_all-other ((event, command) ∷ events) j hooks apart =
      merge_all-other events j (merge_single_hook json event command hooks).0 apart.2
      ∙ merge_single-other event command j hooks apart.1

  IsMerged-lookup :
      (event command : String) (m n : Table V)
      → lookup event n ≡ lookup event m
      → IsMerged event command m
      → IsMerged event command n
  unfolding IsMerged
  IsMerged-lookup event command m n same (v, there, settled) = (v, same ∙ there, settled)

  pub merge_all-AllMerged :
      (events : List (String × String)) (hooks : Table V)
      → AllApart events
      → AllMerged events (merge_all json events hooks).0
  unfolding merge_all AllMerged
  merge_all-AllMerged [] hooks apart = tt
  merge_all-AllMerged ((event, command) ∷ events) hooks apart =
      let hooks₁ = (merge_single_hook json event command hooks).0 in
      (
        IsMerged-lookup event command hooks₁ (merge_all json events hooks₁).0
            (merge_all-other events event hooks₁ apart.0)
            (merge_single-IsMerged event command hooks apart.1),
        merge_all-AllMerged events hooks₁ apart.2,
      )
