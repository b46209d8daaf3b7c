-- ===== src/Setup/Tests.antt =====
-- JSON values as a data type, and the theorems at them.
use agent_dash.Prelude.{
  String, Bool, true, false, none, some, List, [], ◌∷◌, ◌==◌, ◌&&◌, ◌≡◌, refl, sym, ap, ◌∙◌, arith,
  eq_iff, eq_refl,
}
use agent_dash.Table.{Table, lookup, insert}
use agent_dash.Setup.{
  Value, is_agent_dash_command, is_agent_dash_entry, make_hook_entry, replace_first, merge_entries,
  merge_event, merge_all, cleanup_invalid_event, merge_table, merge_root, merge_hooks,
  has_agent_dash_hook,
}
use agent_dash.Setup.Entries.{IsJson}
use agent_dash.Setup.Stable.{merge_hooks-twice}

mutual
  data Doc : Type 0 where
    text : String → Doc
    items : Docs → Doc
    fields : Fields → Doc

  data Docs : Type 0 where
    nil : Docs
    cons : Doc → Docs → Docs

  data Fields : Type 0 where
    end : Fields
    field : String → Doc → Fields → Fields

to_list : Docs → List Doc
to_list nil = []
to_list (cons d ds) = d ∷ to_list ds

of_list : List Doc → Docs
of_list [] = nil
of_list (d ∷ ds) = cons d (of_list ds)

to_table : Fields → Table Doc
to_table end = []
to_table (field k d fs) = (k, d) ∷ to_table fs

of_table : Table Doc → Fields
of_table [] = end
of_table ((k, d) ∷ m) = field k d (of_table m)

mutual
  same_doc : Doc → Doc → Bool
  same_doc (text s) (text t) = s == t
  same_doc (items ds) (items es) = same_docs ds es
  same_doc (fields fs) (fields gs) = same_fields fs gs
  same_doc _ _ = false

  same_docs : Docs → Docs → Bool
  same_docs nil nil = true
  same_docs (cons d ds) (cons e es) = same_doc d e && same_docs ds es
  same_docs _ _ = false

  same_fields : Fields → Fields → Bool
  same_fields end end = true
  same_fields (field j d fs) (field k e gs) = (j == k && same_doc d e) && same_fields fs gs
  same_fields _ _ = false

json : Value Doc
json = record {
  as_object = λ v. elim v [ text s ↦ none | items ds ↦ none | fields fs ↦ some (to_table fs) ];
  as_array = λ v. elim v [ text s ↦ none | items ds ↦ some (to_list ds) | fields fs ↦ none ];
  as_str = λ v. elim v [ text s ↦ some s | items ds ↦ none | fields fs ↦ none ];
  object = λ m. fields (of_table m);
  array = λ vs. items (of_list vs);
  string = text;
  equal = same_doc;
}

of_list-to_list : (vs : List Doc) → to_list (of_list vs) ≡ vs
unfolding to_list of_list
of_list-to_list [] = refl
of_list-to_list (v ∷ vs) = ap (λ l. v ∷ l) (of_list-to_list vs)

of_table-to_table : (m : Table Doc) → to_table (of_table m) ≡ m
unfolding to_table of_table
of_table-to_table [] = refl
of_table-to_table ((k, v) ∷ m) = ap (λ l. (k, v) ∷ l) (of_table-to_table m)

both : (a b : Bool) → a && b ≡ true → (a ≡ true) × (b ≡ true)
both true b e = (refl, e)
both false b e = absurd (cc)

mutual
  unfolding same_doc

  doc_eq : (a b : Doc) → same_doc a b ≡ true → a ≡ b
  doc_eq (text s) (text t) e = ground (arith, eq_iff s t, e)
  doc_eq (items ds) (items es) e = ap items (docs_eq ds es e)
  doc_eq (fields fs) (fields gs) e = ap fields (fields_eq fs gs e)
  doc_eq (text s) (items es) e = absurd (cc)
  doc_eq (text s) (fields gs) e = absurd (cc)
  doc_eq (items ds) (text t) e = absurd (cc)
  doc_eq (items ds) (fields gs) e = absurd (cc)
  doc_eq (fields fs) (text t) e = absurd (cc)
  doc_eq (fields fs) (items es) e = absurd (cc)

  docs_eq : (a b : Docs) → same_docs a b ≡ true → a ≡ b
  docs_eq nil nil e = refl
  docs_eq nil (cons d ds) e = absurd (cc)
  docs_eq (cons d ds) nil e = absurd (cc)
  docs_eq (cons d ds) (cons f fs) e =
      let (one, rest) = both (same_doc d f) (same_docs ds fs) e in
      ap (λ x. cons x ds) (doc_eq d f one) ∙ ap (cons f) (docs_eq ds fs rest)

  fields_eq : (a b : Fields) → same_fields a b ≡ true → a ≡ b
  fields_eq end end e = refl
  fields_eq end (field k d gs) e = absurd (cc)
  fields_eq (field j d fs) end e = absurd (cc)
  fields_eq (field j d fs) (field k f gs) e =
      let (one, rest) = both (j == k && same_doc d f) (same_fields fs gs) e in
      let (key, value) = both (j == k) (same_doc d f) one in
      ap (λ x. field x d fs) ((eq_iff j k).0 key)
      ∙ ap (λ x. field k x fs) (doc_eq d f value)
      ∙ ap (field k f) (fields_eq fs gs rest)

mutual
  unfolding same_doc

  doc_refl : (a : Doc) → same_doc a a ≡ true
  doc_refl (text s) = eq_refl s
  doc_refl (items ds) = docs_refl ds
  doc_refl (fields fs) = fields_refl fs

  docs_refl : (a : Docs) → same_docs a a ≡ true
  docs_refl nil = refl
  docs_refl (cons d ds) = ground (arith, doc_refl d, docs_refl ds)

  fields_refl : (a : Fields) → same_fields a a ≡ true
  fields_refl end = refl
  fields_refl (field k d fs) = ground (arith, eq_refl k, doc_refl d, fields_refl fs)

laws : IsJson json
unfolding json
laws = record {
  object_lem = λ m. ap (λ x. some x) (of_table-to_table m);
  array_lem = λ vs. ap (λ x. some x) (of_list-to_list vs);
  string_lem = λ s. refl;
  equal_lem = λ a b. (doc_eq a b, λ e. ap (same_doc a) (sym e) ∙ doc_refl a);
}

-- a hook of another program, and an old one of this program in the flat format
linter : Doc
linter = fields (field "command" (text "my-linter check") end)

old : Doc
old = fields (field "command" (text "agent-dash-hook stop") end)

target-ours : is_agent_dash_entry json (make_hook_entry json "agent-dash hook stop") ≡ true
unfolding json make_hook_entry is_agent_dash_entry is_agent_dash_command to_list of_list to_table
    of_table lookup
target-ours = refl

settings : Doc
settings =
    fields (field "hooks" (fields (field "Stop" (items (cons linter (cons old nil))) end)) end)

merges : has_agent_dash_hook json (merge_hooks json settings).0 "PreToolUse" ≡ true
unfolding json settings linter old make_hook_entry is_agent_dash_entry is_agent_dash_command to_list
    of_list to_table of_table lookup merge_hooks merge_root merge_table merge_all merge_event
    merge_entries replace_first cleanup_invalid_event has_agent_dash_hook insert
merges = refl

merge_hooks-twice_example :
    merge_hooks json (merge_hooks json settings).0 ≡ ((merge_hooks json settings).0, false)
merge_hooks-twice_example = merge_hooks-twice json laws settings
