-- ===== src/Jsonl/Described.antt =====
-- The status of a journal, described by its entries instead of by a loop over them.
use agent_dash.Prelude.{
  String, Bool, false, Option, none, some, List, [], ◌∷◌, ◌==◌, ◌||◌, ◌&&◌, not, is_empty,
  if◌then◌else◌, and_then, unwrap_or, filter_map, ◌≡◌, refl, arith, ◌∙◌, Option-cases, Bool-cases,
  inl, inr,
}
use agent_dash.Messages.Json.{Json}
use agent_dash.Messages.Files.{Files}
use agent_dash.Jsonl.{
  ContentBlock, tool_use, JournalEntry, assistant, user, JsonlStatus, Scan, read_tail_lines,
  question_value, ask, scan_blocks, blocks_of, place, enter, scan_entry, scan_lines, blank,
  status_of, parse_jsonl_status,
}

-- the last of the values that are there
unfoldable pub last_of : {A B : Type 0} → (A → Option B) → List A → Option B
last_of f [] = none
last_of f (x ∷ xs) = elim (last_of f xs) [ none ↦ f x | some b ↦ some b ]

module _ {V : Type 0} where
  abbrev pub session_of : JournalEntry V → Option String
  session_of (assistant sid gb message) = sid
  session_of (user sid gb) = sid
  session_of JournalEntry.other = none

  abbrev pub branch_of : JournalEntry V → Option String
  branch_of (assistant sid gb message) = gb
  branch_of (user sid gb) = gb
  branch_of JournalEntry.other = none

  -- the blocks of an entry that somebody speaks in; the user's have none
  abbrev pub spoken : JournalEntry V → Option (List (ContentBlock V))
  spoken (assistant sid gb message) = some (unwrap_or (and_then message (λ m. m.content)) [])
  spoken (user sid gb) = some []
  spoken JournalEntry.other = none

  -- the input of a block that asks the user
  abbrev pub asked : ContentBlock V → Option V
  asked (tool_use name input) = if name == "AskUserQuestion" then some input else none
  asked ContentBlock.other = none

  abbrev pub asks_of : List (ContentBlock V) → List V
  asks_of blocks = filter_map asked blocks

module _ {V : Type 0} (json : Json V) where
  -- the text of a question that an input has, with whether it is a text
  abbrev pub question : V → Option (Option String)
  question input = elim (question_value json input) [ none ↦ none | some q ↦ some (json.as_str q) ]

  -- the status that the entries of a journal describe
  unfoldable pub described : List (JournalEntry V) → Option JsonlStatus
  described entries =
      let sid = unwrap_or (last_of session_of entries) "" in
      let asks = asks_of (unwrap_or (last_of spoken entries) []) in
      if sid == ""
      then none
      else some (record {
        session_id = sid;
        git_branch = unwrap_or (last_of branch_of entries) "";
        has_pending_question = not (is_empty asks);
        question_text = unwrap_or (last_of question asks) none;
      })

-- the newest value, if there is one
abbrev pub kept : {B C : Type 0} → (B → C) → Option B → C → C
kept h none c = c
kept h (some b) c = h b

module _ {V : Type 0} (json : Json V) where
  scan_entries : List (JournalEntry V) → Scan → Scan
  scan_entries [] s = s
  scan_entries (e ∷ es) s = scan_entries es (scan_entry json e s)

  scan_lines-eq :
      (from_str : String → Option (JournalEntry V)) (texts : List String) (s : Scan)
      → scan_lines json from_str texts s ≡ scan_entries (filter_map from_str texts) s
  unfolding scan_lines scan_entries
  scan_lines-eq from_str [] s = refl
  scan_lines-eq from_str (text ∷ texts) s = elim (Option-cases (from_str text)) [
    | inl bad ↦ rw (bad, scan_lines, filter_map) (scan_lines-eq from_str texts s)
    | inr (e, ok) ↦
        rw (ok, scan_lines, filter_map) (scan_lines-eq from_str texts (scan_entry json e s))
  ]

  -- A part of the state that each entry sets or leaves is set by the last entry that sets it.
  scan_entries-kept :
      {B C : Type 0} (f : JournalEntry V → Option B) (h : B → C) (g : Scan → C)
      → ((e : JournalEntry V) (s : Scan) → g (scan_entry json e s) ≡ kept h (f e) (g s))
      → (es : List (JournalEntry V)) (s : Scan)
      → g (scan_entries es s) ≡ kept h (last_of f es) (g s)
  unfolding scan_entries last_of
  scan_entries-kept f h g each [] s = refl
  scan_entries-kept f h g each (e ∷ es) s =
      let later = scan_entries-kept f h g each es (scan_entry json e s) in
      elim (Option-cases (last_of f es)) [
        | inl none_later ↦ rw (later, none_later) (each e s)
        | inr (b, is_later) ↦ rw (later, is_later) refl
      ]

  scan_blocks-eq :
      (blocks : List (ContentBlock V)) (s : Scan)
      → scan_blocks json blocks s ≡ record s {
        last_was_assistant_with_ask =
            s.last_was_assistant_with_ask || not (is_empty (asks_of blocks));
        question_text = unwrap_or (last_of (question json) (asks_of blocks)) s.question_text;
      }
  unfolding scan_blocks last_of
  scan_blocks-eq [] s = ground arith
  scan_blocks-eq (ContentBlock.other ∷ blocks) s = scan_blocks-eq blocks s
  scan_blocks-eq (tool_use name input ∷ blocks) s = elim (Bool-cases (name == "AskUserQuestion")) [
    | inl asks ↦ ground (arith, asks, scan_blocks-eq blocks (ask json input s))
    | inr answers ↦ ground (arith, answers, scan_blocks-eq blocks s)
  ]

  -- whether a question is pending, and which
  abbrev pending : Scan → Bool × Option String
  pending s = (s.last_was_assistant_with_ask && not s.last_was_user, s.question_text)

  abbrev pending_of : List (ContentBlock V) → Bool × Option String
  pending_of blocks =
      let asks = asks_of blocks in
      (not (is_empty asks), unwrap_or (last_of (question json) asks) none)

  each_session :
      (e : JournalEntry V) (s : Scan)
      → (scan_entry json e s).session_id ≡ kept (λ x. x) (session_of e) s.session_id
  unfolding scan_entry
  each_session (assistant sid gb message) s =
      ground
        (arith, scan_blocks-eq (blocks_of json message) (enter json false (place json sid gb s)))
  each_session (user sid gb) s = ground arith
  each_session JournalEntry.other s = refl

  each_branch :
      (e : JournalEntry V) (s : Scan)
      → (scan_entry json e s).git_branch ≡ kept (λ x. x) (branch_of e) s.git_branch
  unfolding scan_entry
  each_branch (assistant sid gb message) s =
      ground
        (arith, scan_blocks-eq (blocks_of json message) (enter json false (place json sid gb s)))
  each_branch (user sid gb) s = ground arith
  each_branch JournalEntry.other s = refl

  each_pending :
      (e : JournalEntry V) (s : Scan)
      → pending (scan_entry json e s) ≡ kept pending_of (spoken e) (pending s)
  unfolding scan_entry last_of
  each_pending (assistant sid gb message) s =
      ground
        (arith, scan_blocks-eq (blocks_of json message) (enter json false (place json sid gb s)))
  each_pending (user sid gb) s = refl
  each_pending JournalEntry.other s = refl

  status_of-parts :
      (s : Scan) (sid gb : String) (p : Bool × Option String)
      → s.session_id ≡ sid
      → s.git_branch ≡ gb
      → pending s ≡ p
      → status_of s ≡ (
          if sid == ""
          then none
          else some (record {
            session_id = sid;
            git_branch = gb;
            has_pending_question = p.0;
            question_text = p.1;
          }))
  status_of-parts s sid gb p e₁ e₂ e₃ = rw (← e₁, ← e₂, ← e₃) refl

  pending_of-unwrap :
      (o : Option (List (ContentBlock V)))
      → kept pending_of o (pending blank) ≡ pending_of (unwrap_or o [])
  unfolding last_of
  pending_of-unwrap none = refl
  pending_of-unwrap (some blocks) = refl

  session_of-unwrap : (o : Option String) → kept (λ x. x) o "" ≡ unwrap_or o ""
  session_of-unwrap none = refl
  session_of-unwrap (some s) = refl

  -- The status that is read of a journal is the one that is described by the lines that
  -- `read_tail_lines` gives when it is asked for the last 20, whatever these lines are: the last
  -- session id and branch that an entry among them names, and a pending question exactly if the last
  -- entry among them of the user or of the assistant is one of the assistant that asks, with the text
  -- of its last question. Lines that cannot be decoded count for nothing, and without a session id
  -- there is no status.
  pub parse_jsonl_status-described :
      (from_str : String → Option (JournalEntry V)) (files : Files) (path : String)
      → parse_jsonl_status json from_str files path
        ≡ described json (filter_map from_str (read_tail_lines files path 20))
  unfolding parse_jsonl_status described
  parse_jsonl_status-described from_str files path =
      let texts = read_tail_lines files path 20 in
      let es = filter_map from_str texts in
      let s₀ = blank in
      rw (scan_lines-eq from_str texts s₀) (
        status_of-parts (scan_entries es s₀) _ _ _
          (scan_entries-kept session_of (λ x. x) (λ s. s.session_id) each_session es s₀
            ∙ session_of-unwrap (last_of session_of es))
          (scan_entries-kept branch_of (λ x. x) (λ s. s.git_branch) each_branch es s₀
            ∙ session_of-unwrap (last_of branch_of es))
          (scan_entries-kept spoken pending_of pending each_pending es s₀
            ∙ pending_of-unwrap (last_of spoken es)))
