-- ===== src/Messages/Parsed.antt =====
-- What is read of the lines of a transcript.
use agent_dash.Prelude.{
  ℕ, zero, suc, ◌-◌, ◌≤◌, String, false, ◌≡◌, refl, ap, sym, subst, if_true, ◌⊎◌, inl, inr, Option,
  none, some, List, [], ◌∷◌, ◌++◌, arith, ◌==◌, Bool-cases, Option-cases, filter_map, All, is_empty,
  length, drop, ltb, and_then, map_option,
}
use Prim.Native.Nat.{min}
use agent_dash.Protocol.{ContentBlock, text, tool_use, tool_result, structured, ChatMessage}
use agent_dash.Messages.Json.{Json, get_str}
use agent_dash.Messages.Strings.{trim}
use agent_dash.Messages.Blocks.{
  non_empty, block_of_type, parse_one_block, parse_content_blocks, role_of, message_of, entry,
  message_of_value, parse_one_line, parse_lines, last_messages,
}

-- a block that is not an empty text
abbrev pub HasContent : {V : Type 0} → ContentBlock V → Type 0
HasContent (text s) = (s == "") ≡ false
HasContent (tool_use _ _ _) = Unit
HasContent (tool_result _ _) = Unit

module _ {ℓ} {A : Type ℓ} where
  split-drop : (n : ℕ) (xs : List A) → (skipped : List A) × (xs ≡ skipped ++ drop n xs)
  split-drop zero xs = ([], refl)
  split-drop (suc n) [] = ([], refl)
  split-drop (suc n) (x ∷ xs) =
      let (skipped, e) = split-drop n xs in (x ∷ skipped, ap (λ ys. x ∷ ys) e)

  length-drop : (n : ℕ) (xs : List A) → n ≤ length xs → length (drop n xs) ≡ length xs - n
  length-drop zero xs h = omega arith
  length-drop (suc n) [] h = omega (arith, h)
  length-drop (suc n) (x ∷ xs) h = omega (arith, length-drop n xs, h)

module _ {V : Type 0} (json : Json V) where
  non_empty-HasContent :
      (s : Option String) (b : ContentBlock V)
      → map_option text (and_then s non_empty) ≡ some b
      → HasContent b
  non_empty-HasContent none b e = ground arith
  non_empty-HasContent (some s) b e = elim (Bool-cases (s == "")) [
    | inl empty ↦ ground (arith, empty, e)
    | inr full ↦ ground (arith, full, e)
  ]

  block_of_type-HasContent :
      (kind : String) (obj : V) (b : ContentBlock V)
      → block_of_type json kind obj ≡ some b
      → HasContent b
  unfolding block_of_type
  block_of_type-HasContent kind obj b e = elim (Bool-cases (kind == "text")) [
    | inl is_text ↦
        non_empty-HasContent (get_str json "text" obj) b (rw⁻¹ e (sym (if_true _ _ is_text)))
    | inr n₁ ↦ elim (Bool-cases (kind == "tool_use")) [
      | inl is_use ↦ elim (Option-cases (get_str json "name" obj)) [
        | inl nameless ↦ ground (arith, n₁, is_use, nameless, e)
        | inr (name, named) ↦ ground (arith, n₁, is_use, named, e)
      ]
      | inr n₂ ↦ ground (arith, n₁, n₂, e)
    ]
  ]

  parse_one_block-HasContent :
      (item : V) (b : ContentBlock V) → parse_one_block json item ≡ some b → HasContent b
  unfolding parse_one_block
  parse_one_block-HasContent item b e = elim (Option-cases (get_str json "type" item)) [
    | inl untyped ↦ ground (arith, untyped, e)
    | inr (kind, typed) ↦ ground (arith, typed, e, block_of_type-HasContent kind item b)
  ]

  filter_map-HasContent :
      (items : List V) → All HasContent (filter_map (parse_one_block json) items)
  filter_map-HasContent [] = tt
  filter_map-HasContent (item ∷ items) = elim (Option-cases (parse_one_block json item)) [
    | inl skipped ↦ rw (skipped, All, filter_map) (filter_map-HasContent items)
    | inr (b, kept) ↦
        rw (kept, All, filter_map)
          (parse_one_block-HasContent item b kept, filter_map-HasContent items)
  ]

  parse_content_blocks-HasContent :
      (content : V) → All HasContent (parse_content_blocks json content)
  unfolding parse_content_blocks
  parse_content_blocks-HasContent content = elim (Option-cases (json.as_str content)) [
    | inr (s, is_str) ↦ elim (Bool-cases (s == "")) [
      | inl empty ↦ rw (is_str, parse_content_blocks, empty) tt
      | inr full ↦ rw (is_str, parse_content_blocks, full) (full, tt)
    ]
    | inl not_str ↦ elim (Option-cases (json.as_array content)) [
      | inl not_array ↦ rw (not_str, parse_content_blocks, not_array) tt
      | inr (items, is_array) ↦
          rw (not_str, parse_content_blocks, is_array) (filter_map-HasContent items)
    ]
  ]

  module _ (markdown_to_html : String → String) where
    abbrev IsRole : String → Type 0
    IsRole role = (role ≡ "user") ⊎ (role ≡ "assistant")

    role_of-IsRole : (msg_type role : String) → role_of json msg_type ≡ some role → IsRole role
    role_of-IsRole msg_type role e = ground (arith, e)

    structured-content :
        (format role : String) (blocks : List (ContentBlock V)) (m : ChatMessage V)
        → (format == "markdown") ≡ false
        → (format == "html") ≡ false
        → message_of json markdown_to_html format role blocks ≡ some m
        → (m.role ≡ role) × (m.content ≡ structured blocks) × (is_empty blocks ≡ false)
    structured-content format role blocks m f g e = ground (arith, f, g, e)

    entry-IsRole :
        (v content : V) (role : String)
        → entry json markdown_to_html v ≡ some (role, content)
        → IsRole role
    entry-IsRole v content role e = elim (Option-cases (get_str json "type" v)) [
      | inl untyped ↦ ground (arith, untyped, e)
      | inr (kind, typed) ↦ elim (Option-cases (role_of json kind)) [
        | inl skipped ↦ ground (arith, typed, skipped, e)
        | inr (r, known) ↦ elim (Option-cases (json.get "message" v)) [
          | inl missing ↦ ground (arith, typed, known, missing, e)
          | inr (message, there) ↦ elim (Option-cases (json.get "content" message)) [
            | inl missing ↦ ground (arith, typed, known, there, missing, e)
            | inr (c, found) ↦
                ground (arith, typed, known, there, found, e, role_of-IsRole kind r known)
          ]
        ]
      ]
    ]

    message_of_value-lem :
        (v : V) (format : String) (m : ChatMessage V)
        → message_of_value json markdown_to_html format v ≡ some m
        → (role : String) × (content : V) × IsRole role
          × (message_of json markdown_to_html format role (parse_content_blocks json content)
              ≡ some m)
    message_of_value-lem v format m e = elim (Option-cases (entry json markdown_to_html v)) [
      | inl missing ↦ ground (arith, missing, e)
      | inr ((role, content), found) ↦
          (role, content, entry-IsRole v content role found, ground (arith, found, e))
    ]

    parse_one_line-value :
        (line format : String) (m : ChatMessage V)
        → parse_one_line json markdown_to_html line format ≡ some m
        → (v : V) × (message_of_value json markdown_to_html format v ≡ some m)
    unfolding parse_one_line
    parse_one_line-value line format m e = elim (Option-cases (json.from_str (trim line))) [
      | inl malformed ↦ ground (arith, malformed, e)
      | inr (v, read) ↦ (v, ground (arith, read, e))
    ]

    -- A line that is read as a message in the structured format is one of the user or of the
    -- assistant, and has at least one block, none of them an empty text.
    pub parse_one_line_lem :
        (line format : String) (m : ChatMessage V)
        → (format == "markdown") ≡ false
        → (format == "html") ≡ false
        → parse_one_line json markdown_to_html line format ≡ some m
        → ((m.role ≡ "user") ⊎ (m.role ≡ "assistant"))
          × ((blocks : List (ContentBlock V)) × (m.content ≡ structured blocks)
              × (is_empty blocks ≡ false)
              × All HasContent blocks)
    parse_one_line_lem line format m f g e =
        let (v, from) = parse_one_line-value line format m e in
        let (role, content, ok, made) = message_of_value-lem v format m from in
        let blocks = parse_content_blocks json content in
        let (same, is_structured, some_left) = structured-content format role blocks m f g made in
        (
          subst IsRole (sym same) ok,
          (blocks, is_structured, some_left, parse_content_blocks-HasContent content),
        )

    -- The last messages of a transcript: as many as the limit, or all if there are no more, and
    -- nothing but the first ones is left out.
    pub last_messages_lem :
        (lines : List String) (limit : ℕ) (format : String)
        → (length (last_messages json markdown_to_html lines limit format)
            ≡ min limit (length (parse_lines json markdown_to_html lines format)))
          × ((skipped : List (ChatMessage V)) × (parse_lines json markdown_to_html lines format
                ≡ skipped ++ last_messages json markdown_to_html lines limit format))
    unfolding last_messages
    last_messages_lem lines limit format =
        let all = parse_lines json markdown_to_html lines format in
        elim (Bool-cases (ltb limit (length all))) [
          | inl more ↦ rw more (
            omega (arith, length-drop (length all - limit) all (omega arith)),
            split-drop (length all - limit) all,
          )
          | inr fits ↦ rw fits (ground (arith, fits), ([], refl))
        ]
