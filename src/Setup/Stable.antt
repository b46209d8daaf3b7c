-- ===== src/Setup/Stable.antt =====
-- The settings after the merge, and after another one.
use agent_dash.Prelude.{
  String, Bool, true, false, Option, none, some, [], ◌||◌, ◌≡◌, refl, sym, ap, subst, ◌∙◌, inl, inr,
  Bool-cases, Option-cases, and_then, eq_refl, unwrap_or, map_option, if_true, if_false,
}
use agent_dash.Table.{Table, lookup, insert, remove}
use agent_dash.Table.Laws.{lookup-insert, lookup-remove}
use agent_dash.Setup.{
  Value, hook_entries, is_agent_dash_command, or_insert, all_ours, cleanup_invalid_event, merge_all,
  merge_table, merge_root, merge_hooks,
}
use agent_dash.Setup.Entries.{IsJson}
use agent_dash.Setup.Merged.{
  insert-same, or_insert-lookup, or_insert-there, merge_all-fixed, merge_all-other,
  merge_all-AllMerged, AllApart, IsApart,
}

module _ {V : Type 0} (json : Value V) (laws : IsJson json) where
  -- whether an event is cleaned up depends on its own value alone
  cleanup-fixed :
      (event : String) (hooks later : Table V)
      → lookup event later ≡ lookup event (cleanup_invalid_event json event hooks).0
      → cleanup_invalid_event json event later ≡ (later, false)
  unfolding cleanup_invalid_event
  cleanup-fixed event hooks later same =
      let test =
        λ (o : Option V). unwrap_or (map_option (all_ours json) (and_then o json.as_array)) false in
      let removed : lookup event (remove event hooks) ≡ none =
        lookup-remove event event hooks ∙ if_true _ _ (eq_refl event) in
      elim (Bool-cases (test (lookup event hooks))) [
        | inl goes ↦ if_false _ _ (
            ap test (
              same
              ∙ ap (λ (r : Table V × Bool). lookup event r.0)
                  (if_true (remove event hooks, true) _ goes)
              ∙ removed))
        | inr stays ↦ if_false _ _ (
            ap test (
              same
              ∙ ap (λ (r : Table V × Bool). lookup event r.0)
                  (if_false (remove event hooks, true) (hooks, false) stays))
            ∙ stays)
      ]

  merge_table-fixed :
      (hooks : Table V)
      → AllApart hook_entries
      → IsApart "NotificationStart" hook_entries
      → merge_table json (merge_table json hooks).0 ≡ ((merge_table json hooks).0, false)
  unfolding merge_table
  merge_table-fixed hooks apart kept =
      let hooks₁ = (cleanup_invalid_event json "NotificationStart" hooks).0 in
      let hooks₂ = (merge_all json hook_entries hooks₁).0 in
      let clean =
        cleanup-fixed "NotificationStart" hooks hooks₂
          (merge_all-other json laws hook_entries "NotificationStart" hooks₁ kept) in
      let done =
        merge_all-fixed json laws hook_entries hooks₂
          (merge_all-AllMerged json laws hook_entries hooks₁ apart) in
      ap (λ r. ((merge_all json hook_entries r.0).0, r.1 || (merge_all json hook_entries r.0).1))
        clean
      ∙ done

  merge_root-object :
      (root hooks : Table V) (w : V)
      → lookup "hooks" root ≡ some w
      → json.as_object w ≡ some hooks
      → merge_root json root
        ≡ (insert "hooks" (json.object (merge_table json hooks).0) root, (merge_table json hooks).1)
  unfolding merge_root
  merge_root-object root hooks w there is_object =
      let got : and_then (lookup "hooks" root) json.as_object ≡ some hooks =
        ap (λ o. and_then o json.as_object) there ∙ is_object in
      rw (got, merge_root) refl

  merge_root-other :
      (root : Table V) (w : V)
      → lookup "hooks" root ≡ some w
      → json.as_object w ≡ none
      → merge_root json root ≡ (root, false)
  unfolding merge_root
  merge_root-other root w there no_object =
      let got : and_then (lookup "hooks" root) json.as_object ≡ none =
        ap (λ o. and_then o json.as_object) there ∙ no_object in
      rw (got, merge_root) refl

  -- a second merge, where the first gave this result, changes nothing
  IsStable : Table V × Bool → Type 0
  IsStable r = merge_root json (or_insert "hooks" (json.object []) r.0) ≡ (r.0, false)

  -- once there is something under `hooks`
  merge_root-IsStable :
      (root : Table V) (w : V)
      → AllApart hook_entries
      → IsApart "NotificationStart" hook_entries
      → lookup "hooks" root ≡ some w
      → IsStable (merge_root json root)
  unfolding IsStable
  merge_root-IsStable root w apart kept there = elim (Option-cases (json.as_object w)) [
    | inl no_object ↦
        let left = merge_root-other root w there no_object in
        subst IsStable (sym left)
          (ap (merge_root json) (or_insert-there "hooks" (json.object []) w root there) ∙ left)
    | inr (hooks, is_object) ↦
        let merged = (merge_table json hooks).0 in
        let root₁ = insert "hooks" (json.object merged) root in
        let there₁ : lookup "hooks" root₁ ≡ some (json.object merged) =
          lookup-insert "hooks" "hooks" (json.object merged) root in
        subst IsStable (sym (merge_root-object root hooks w there is_object)) (
          ap (merge_root json)
            (or_insert-there "hooks" (json.object []) (json.object merged) root₁ there₁)
          ∙ merge_root-object root₁ merged (json.object merged) there₁ (laws.object_lem merged)
          ∙ ap (λ (r : Table V × Bool). (insert "hooks" (json.object r.0) root₁, r.1))
              (merge_table-fixed hooks apart kept)
          ∙ ap (λ m. (m, false)) (insert-same "hooks" (json.object merged) root₁ there₁))
  ]

  entries-AllApart : AllApart hook_entries
  unfolding is_agent_dash_command
  entries-AllApart = (
    (refl, refl, (refl, refl, (refl, refl, (refl, refl, (refl, refl, tt))))),
    refl,
    (
      (refl, refl, (refl, refl, (refl, refl, (refl, refl, tt)))),
      refl,
      (
        (refl, refl, (refl, refl, (refl, refl, tt))),
        refl,
        ((refl, refl, (refl, refl, tt)), refl, ((refl, refl, tt), refl, (tt, refl, tt))),
      ),
    ),
  )

  cleaned-IsApart : IsApart "NotificationStart" hook_entries
  cleaned-IsApart =
      (refl, refl, (refl, refl, (refl, refl, (refl, refl, (refl, refl, (refl, refl, tt))))))

  merge_hooks-object :
      (settings : V) (root : Table V)
      → json.as_object settings ≡ some root
      → merge_hooks json settings ≡ (
        json.object (merge_root json (or_insert "hooks" (json.object []) root)).0,
        (merge_root json (or_insert "hooks" (json.object []) root)).1,
      )
  unfolding merge_hooks
  merge_hooks-object settings root is_object = rw (is_object, merge_hooks) refl

  merge_hooks-other :
      (settings : V)
      → json.as_object settings ≡ none
      → merge_hooks json settings ≡ (settings, false)
  unfolding merge_hooks
  merge_hooks-other settings no_object = rw (no_object, merge_hooks) refl

  IsLast : V × Bool → Type 0
  IsLast r = merge_hooks json r.0 ≡ (r.0, false)

  -- To merge the hooks into settings into which they have been merged changes nothing, and reports
  -- that nothing has changed.
  pub merge_hooks-twice :
      (settings : V)
      → merge_hooks json (merge_hooks json settings).0 ≡ ((merge_hooks json settings).0, false)
  unfolding IsStable IsLast
  merge_hooks-twice settings = elim (Option-cases (json.as_object settings)) [
    | inl no_object ↦
        let same = merge_hooks-other settings no_object in subst IsLast (sym same) same
    | inr (root, is_object) ↦
        let (w, there) = or_insert-lookup "hooks" (json.object []) root in
        let root₁ = (merge_root json (or_insert "hooks" (json.object []) root)).0 in
        subst IsLast (sym (merge_hooks-object settings root is_object)) (
          merge_hooks-object (json.object root₁) root₁ (laws.object_lem root₁)
          ∙ ap (λ (r : Table V × Bool). (json.object r.0, r.1))
              (merge_root-IsStable (or_insert "hooks" (json.object []) root) w entries-AllApart
                cleaned-IsApart there))
  ]
