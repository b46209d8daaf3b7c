-- ===== src/Setup/Entries.antt =====
-- The entries of one hook event.
use agent_dash.Prelude.{
  String, true, false, some, List, [], ◌∷◌, ◌++◌, ◌||◌, not, ◌≡◌, refl, ap, ◌∙◌, ◌↔◌, inl, inr,
  arith, Bool-cases, and_then, any, filter, unwrap_or, map_option,
}
use agent_dash.Table.{Table, lookup}
use agent_dash.Setup.{
  Value, is_agent_dash_command, get, has_command, is_agent_dash_entry, make_hook_entry,
  replace_first, merge_entries,
}

-- what `serde_json` promises: an accessor gives back what a constructor was given, and `==` is
-- equality
pub record IsJson {V : Type 0} (json : Value V) : Type 0 where
  pub object_lem : (m : Table V) → json.as_object (json.object m) ≡ some m
  pub array_lem : (vs : List V) → json.as_array (json.array vs) ≡ some vs
  pub string_lem : (s : String) → json.as_str (json.string s) ≡ some s
  pub equal_lem : (a b : V) → (json.equal a b ≡ true) ↔ (a ≡ b)

module _ {V : Type 0} (json : Value V) where
  abbrev pub ours : List V → List V
  ours es = filter (is_agent_dash_entry json) es

  abbrev pub theirs : List V → List V
  theirs es = filter (λ e. not (is_agent_dash_entry json e)) es

  -- the object of one command
  abbrev command_object : String → V
  command_object command =
      json.object (("type", json.string "command") ∷ ("command", json.string command) ∷ [])

  command_object-has_command :
      (command : String)
      → IsJson json
      → has_command json (command_object command) ≡ is_agent_dash_command command
  unfolding lookup
  command_object-has_command command laws =
      let fields : Table V =
        ("type", json.string "command") ∷ ("command", json.string command) ∷ [] in
      let got : get json "command" (command_object command) ≡ some (json.string command) =
        ap (λ o. and_then o (lookup "command")) (laws.object_lem fields) in
      ap (λ o. unwrap_or (map_option is_agent_dash_command (and_then o json.as_str)) false) got
      ∙ ap (λ o. unwrap_or (map_option is_agent_dash_command o) false) (laws.string_lem command)

  pub make_hook_entry-ours :
      (command : String)
      → IsJson json
      → is_agent_dash_command command ≡ true
      → is_agent_dash_entry json (make_hook_entry json command) ≡ true
  unfolding make_hook_entry is_agent_dash_entry lookup
  make_hook_entry-ours command laws ok =
      let inner = command_object command ∷ [] in
      let fields : Table V = ("hooks", json.array inner) ∷ [] in
      let flat = has_command json (json.object fields) in
      let got : and_then (get json "hooks" (json.object fields)) json.as_array ≡ some inner =
        ap (λ o. and_then (and_then o (lookup "hooks")) json.as_array) (laws.object_lem fields)
        ∙ laws.array_lem inner in
      ap (λ o. any (has_command json) (unwrap_or o []) || flat) got
      ∙ ap (λ b. (b || false) || flat) (command_object-has_command command laws ∙ ok)

  module _ (target : V) (is_ours : is_agent_dash_entry json target ≡ true) where
    ours-theirs : (es : List V) → ours (theirs es) ≡ []
    ours-theirs [] = refl
    ours-theirs (e ∷ es) = ground (arith, ours-theirs es)

    theirs-twice : (es : List V) → theirs (theirs es) ≡ theirs es
    theirs-twice [] = refl
    theirs-twice (e ∷ es) = ground (arith, theirs-twice es)

    ours-append : (es : List V) → ours (es ++ target ∷ []) ≡ ours es ++ target ∷ []
    ours-append [] = rw is_ours refl
    ours-append (e ∷ es) = ground (arith, ours-append es)

    theirs-append : (es : List V) → theirs (es ++ target ∷ []) ≡ theirs es
    theirs-append [] = rw is_ours refl
    theirs-append (e ∷ es) = ground (arith, theirs-append es)

    ours-replace :
        (es : List V) (e : V) (rest : List V)
        → ours es ≡ e ∷ rest
        → ours (replace_first json target es) ≡ target ∷ []
    unfolding replace_first
    ours-replace [] e rest h = absurd (cc)
    ours-replace (x ∷ es) e rest h = elim (Bool-cases (is_agent_dash_entry json x)) [
      | inl yes_ours ↦
          rw (yes_ours, replace_first, is_ours, filter) (ap (λ l. target ∷ l) (ours-theirs es))
      | inr not_ours ↦ ground (arith, not_ours, h, ours-replace es e rest)
    ]

    theirs-replace : (es : List V) → theirs (replace_first json target es) ≡ theirs es
    unfolding replace_first
    theirs-replace [] = refl
    theirs-replace (x ∷ es) = ground (arith, is_ours, theirs-twice es, theirs-replace es)

    -- a list with the one entry of ours is left as it is
    pub merge_entries-fixed :
        (es : List V)
        → IsJson json
        → ours es ≡ target ∷ []
        → merge_entries json target es ≡ (es, false)
    unfolding merge_entries
    merge_entries-fixed es laws h =
        rw (h, merge_entries, (laws.equal_lem target target).1 refl) refl

    merged-facts :
        (es found : List V)
        → IsJson json
        → ours es ≡ found
        → (ours (merge_entries json target es).0 ≡ target ∷ [])
          × (theirs (merge_entries json target es).0 ≡ theirs es)
    unfolding merge_entries
    merged-facts es [] laws h =
        rw (h, merge_entries) (ours-append es ∙ ap (λ l. l ++ target ∷ []) h, theirs-append es)
    merged-facts es (e ∷ []) laws h = elim (Bool-cases (json.equal e target)) [
      | inl same ↦
          rw (h, merge_entries, same)
            (h ∙ ap (λ x. x ∷ []) ((laws.equal_lem e target).0 same), refl)
      | inr other ↦ rw (h, merge_entries, other) (ours-replace es e [] h, theirs-replace es)
    ]
    merged-facts es (e ∷ f ∷ rest) laws h =
        rw (h, merge_entries) (ours-replace es e (f ∷ rest) h, theirs-replace es)

    -- After the merging of one event's entries exactly one of them is ours, the wanted one; the
    -- entries of others are those that were there, in their order; and to merge again changes
    -- nothing and says so.
    pub merge_entries_lem :
        (es : List V)
        → IsJson json
        → (ours (merge_entries json target es).0 ≡ target ∷ [])
          × (theirs (merge_entries json target es).0 ≡ theirs es)
          × (merge_entries json target (merge_entries json target es).0
              ≡ ((merge_entries json target es).0, false))
    merge_entries_lem es laws =
        let (one, kept) = merged-facts es (ours es) laws refl in
        (one, kept, merge_entries-fixed (merge_entries json target es).0 laws one)
