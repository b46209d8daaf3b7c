-- ===== src/Messages/Html/Safe.antt =====
-- How many tags the HTML of content blocks has.
use agent_dash.Prelude.{
  ℕ, zero, suc, ◌+◌, ◌*◌, ◌/◌, ◌%◌, String, Bool, true, false, none, some, List, [], ◌∷◌, ◌==◌,
  ◌||◌, if◌then◌else◌, nat_eq, leb, ltb, unwrap_or, length, take, ◌≡◌, refl, ap, ◌∙◌, arith,
  Bool-cases, Option-cases, inl, inr, both_branches,
}
use Prim.Native.Char.{Char, code}
use Prim.Native.String as S
use Prim.Native.String.{◌++◌}
use package.text.Mathlib.TextLemmas.{nil-append, cons-append}
use agent_dash.Protocol.{ContentBlock, text, tool_use, tool_result}
use agent_dash.Messages.{escape_char, escape_html, task_status_icon}
use agent_dash.Messages.Json.{Json}
use agent_dash.Messages.Strings.{trim, lines, digit, decimal}
use agent_dash.Messages.Html.{
  strip_outer_p, parse_task, task_div, task_line, task_lines, render_task_list_result,
  starts_with_bullet, text_div, tool_div, prefix, output_lines, full_lines, collapsed, output_div,
  is_quiet_task, input_str, html_block, render_html,
}

-- the number of `<` in a text
unfoldable pub opens : String → ℕ
opens S.[] = 0
opens (S.◌∷◌ c s) = let rest = opens s in if nat_eq (code c) b'<' then 1 + rest else rest

one_more :
    (b : Bool) (m n k : ℕ) → m ≡ n + k → (if b then 1 + m else m) ≡ (if b then 1 + n else n) + k
one_more true m n k e = omega arith
one_more false m n k e = e

opens-append : (s t : String) → opens (s ++ t) ≡ opens s + opens t
unfolding opens
opens-append S.[] t = ap opens (nil-append t) ∙ omega arith
opens-append (S.◌∷◌ c s) t =
    ap opens (cons-append c s t)
    ∙ one_more (nat_eq (code c) b'<') (opens (s ++ t)) (opens s) (opens t) (opens-append s t)

opens-escape_char : (c : Char) (rest : String) → opens (escape_char c rest) ≡ opens rest
unfolding opens escape_char
opens-escape_char c rest = ground arith

opens-escape_html : (s : String) → opens (escape_html s) ≡ 0
unfolding escape_html opens
opens-escape_html S.[] = refl
opens-escape_html (S.◌∷◌ c s) = opens-escape_char c (escape_html s) ∙ opens-escape_html s

-- a choice between two texts without tags
opens-if : (b : Bool) (s t : String) → opens s ≡ 0 → opens t ≡ 0 → opens (if b then s else t) ≡ 0
opens-if true s t p q = p
opens-if false s t p q = q

opens-digit : (n : ℕ) → opens (digit n) ≡ 0
unfolding opens
opens-digit n = opens-if (nat_eq n 0) _ _ refl (
    opens-if (nat_eq n 1) _ _ refl (
      opens-if (nat_eq n 2) _ _ refl (
        opens-if (nat_eq n 3) _ _ refl (
          opens-if (nat_eq n 4) _ _ refl (
            opens-if (nat_eq n 5) _ _ refl (
              opens-if (nat_eq n 6) _ _ refl
                (opens-if (nat_eq n 7) _ _ refl (opens-if (nat_eq n 8) _ _ refl refl))))))))

opens-decimal : (fuel n : ℕ) → opens (decimal fuel n) ≡ 0
unfolding decimal opens
opens-decimal zero n = refl
opens-decimal (suc fuel) n = opens-if (ltb n 10) _ _ (opens-digit n) (
    opens-append (decimal fuel (n / 10)) (digit (n % 10))
    ∙ omega (arith, opens-decimal fuel (n / 10), opens-digit (n % 10)))

opens-icon :
    (status : String)
    → (opens (task_status_icon status).0 ≡ 0) × (opens (task_status_icon status).1 ≡ 0)
unfolding task_status_icon opens
opens-icon status =
    both_branches (λ (p : String × String). (opens p.0 ≡ 0) × (opens p.1 ≡ 0))
      (status == "completed") (refl, refl)
      (both_branches (λ (p : String × String). (opens p.0 ≡ 0) × (opens p.1 ≡ 0))
        (status == "in_progress") (refl, refl) (refl, refl))

-- a task, its icon and class given
opens-item :
    (icon css_class subject : String)
    → opens icon ≡ 0
    → opens css_class ≡ 0
    → opens (
        "<div class=\"task-item "
        ++ (css_class
            ++ ("\">"
                ++ (icon
                    ++ (" <span class=\"task-subject\">"
                        ++ (escape_html subject ++ "</span></div>"))))))
      ≡ 4
unfolding opens
opens-item icon css_class subject i c = simp (opens-append, opens-escape_html, i, c)

-- the number of tags of a task, whatever its status and subject
opens-task_div : (status subject : String) → opens (task_div status subject) ≡ 4
opens-task_div status subject =
    opens-item (task_status_icon status).0 (task_status_icon status).1 subject (opens-icon status).0
      (opens-icon status).1

-- the number of tags of a line of a task list
task_line_tags : String → ℕ
task_line_tags line =
    let trimmed = trim line in
    if trimmed == "" then 0 else elim (parse_task trimmed) [ none ↦ 2 | some task ↦ 4 ]

task_list_tags : List String → ℕ
task_list_tags [] = 0
task_list_tags (line ∷ rest) = task_line_tags line + task_list_tags rest

-- the number of tags of an output of so many lines: all are shown up to five, three beyond
output_tags : ℕ → ℕ
output_tags zero = 0
output_tags (suc n) = if leb (suc n) 5 then 2 + 2 * suc n else 14

opens-plain_item :
    (subject : String)
    → opens ("<div class=\"task-item\">" ++ (escape_html subject ++ "</div>")) ≡ 2
unfolding opens
opens-plain_item subject = simp (opens-append, opens-escape_html)

opens-task_line : (line : String) → opens (task_line line) ≡ task_line_tags line
unfolding task_line task_line_tags opens
opens-task_line line = elim (Bool-cases (trim line == "")) [
  | inl e ↦ rw e
  | inr e ↦ (elim (Option-cases (parse_task (trim line))) [
    | inl h ↦ rw (e, h) (opens-plain_item (trim line))
    | inr (task, h) ↦ rw (e, h) (opens-task_div task.0 task.1)
  ])
]

opens-task_lines : (ls : List String) → opens (task_lines ls) ≡ task_list_tags ls
unfolding task_lines task_list_tags opens
opens-task_lines [] = refl
opens-task_lines (line ∷ rest) =
    opens-append (task_line line) (task_lines rest)
    ∙ omega (arith, opens-task_line line, opens-task_lines rest)

opens-task_list :
    (output : String) → opens (render_task_list_result output) ≡ 2 + task_list_tags (lines output)
unfolding render_task_list_result opens
opens-task_list output = simp (opens-append) (omega (arith, opens-task_lines (lines output)))

opens-text_div : (role t inline : String) → opens (text_div role t inline) ≡ 2 + opens inline
unfolding text_div opens
opens-text_div role t inline =
    both_branches (λ x. opens x ≡ 2 + opens inline) (role == "user" || starts_with_bullet t)
      (simp (opens-append) (omega arith)) (simp (opens-append) (omega arith))

opens-tool_div :
    (name detail : String) → opens (tool_div name detail) ≡ (if detail == "" then 4 else 6)
unfolding tool_div opens
opens-tool_div name detail = elim (Bool-cases (detail == "")) [
  | inl e ↦ rw e (simp (opens-append, opens-escape_html))
  | inr e ↦ rw e (simp (opens-append, opens-escape_html))
]

opens-output_line :
    (is_first : Bool) (line : String)
    → opens
        ("<div class=\"tool-output-line\">" ++ (prefix is_first ++ (escape_html line ++ "</div>")))
      ≡ 2
unfolding opens
opens-output_line true line = simp (opens-append, opens-escape_html)
opens-output_line false line = simp (opens-append, opens-escape_html)

opens-output_lines :
    (is_first : Bool) (ls : List String) → opens (output_lines is_first ls) ≡ 2 * length ls
unfolding output_lines opens
opens-output_lines is_first [] = refl
opens-output_lines is_first (line ∷ rest) =
    opens-append _ (output_lines false rest)
    ∙ omega (arith, opens-output_line is_first line, opens-output_lines false rest)

opens-full_lines : (ls : List String) → opens (full_lines ls) ≡ 0
unfolding full_lines opens
opens-full_lines [] = refl
opens-full_lines (line ∷ rest) = simp (opens-append, opens-escape_html, opens-full_lines rest)

opens-collapsed : (ls : List String) → opens (collapsed ls) ≡ 2 * length (take 3 ls) + 6
unfolding opens
opens-collapsed ls =
    simp (opens-append, opens-output_lines, opens-decimal, opens-full_lines) (omega arith)

length-take_three : (ls : List String) → leb (length ls) 5 ≡ false → length (take 3 ls) ≡ 3
length-take_three [] e = ground (arith, e)
length-take_three (a ∷ []) e = ground (arith, e)
length-take_three (a ∷ b ∷ []) e = ground (arith, e)
length-take_three (a ∷ b ∷ c ∷ ls) e = refl

opens-in_result :
    (inner : String)
    → opens ("<div class=\"block-tool-result\">" ++ (inner ++ "</div>")) ≡ 2 + opens inner
unfolding opens
opens-in_result inner = simp (opens-append) (omega arith)

opens-output_div : (ls : List String) → opens (output_div ls) ≡ output_tags (length ls)
unfolding output_div output_tags opens
opens-output_div [] = refl
opens-output_div (l ∷ ls) =
    opens-in_result
      (if leb (length (l ∷ ls)) 5 then output_lines true (l ∷ ls) else collapsed (l ∷ ls))
    ∙ (elim (Bool-cases (leb (length (l ∷ ls)) 5)) [
      | inl e ↦ rw e (omega (arith, opens-output_lines true (l ∷ ls)))
      | inr e ↦ rw e (omega (arith, opens-collapsed (l ∷ ls), length-take_three (l ∷ ls) e))
    ])

module _ {V : Type 0} (markdown_to_html : String → String) where
  -- the number of tags of a block, read off its structure: a text has those its markdown renders to
  block_tags : ContentBlock V → ℕ
  block_tags (text t) = 2 + opens (strip_outer_p (markdown_to_html t))
  block_tags (tool_use name detail input) =
      if name == "TaskCreate" || name == "TaskUpdate" then 4 else if detail == "" then 4 else 6
  block_tags (tool_result name none) = 0
  block_tags (tool_result name (some output)) =
      if is_quiet_task name
      then 0
      else if name == "TaskList"
      then 2 + task_list_tags (lines output)
      else output_tags (length (lines output))

  pub tags : List (ContentBlock V) → ℕ
  tags [] = 0
  tags (block ∷ blocks) = block_tags block + tags blocks

  module _ (json : Json V) where
    opens-html_block :
        (role : String) (block : ContentBlock V)
        → opens (html_block json markdown_to_html role block) ≡ block_tags block
    unfolding html_block block_tags opens
    opens-html_block role (text t) = opens-text_div role t (strip_outer_p (markdown_to_html t))
    opens-html_block role (tool_use name detail input) = elim (Bool-cases (name == "TaskCreate")) [
      | inl e ↦ rw e (opens-task_div "pending" (unwrap_or (input_str json "subject" input) detail))
      | inr e ↦ (elim (Bool-cases (name == "TaskUpdate")) [
        | inl h ↦ rw (e, h) (opens-task_div _ _)
        | inr h ↦ rw (e, h) (opens-tool_div name detail)
      ])
    ]
    opens-html_block role (tool_result name none) = refl
    opens-html_block role (tool_result name (some output)) =
        elim (Bool-cases (is_quiet_task name)) [
          | inl e ↦ rw e
          | inr e ↦ (elim (Bool-cases (name == "TaskList")) [
            | inl h ↦ rw (e, h) (opens-task_list output)
            | inr h ↦ rw (e, h) (opens-output_div (lines output))
          ])
        ]

    -- The number of `<` in the HTML of content blocks is the one that their structure says: no name,
    -- detail, subject or output line of theirs adds a tag, only what a markdown text is rendered to.
    pub render_html-tags :
        (role : String) (blocks : List (ContentBlock V))
        → opens (render_html json markdown_to_html role blocks) ≡ tags blocks
    unfolding render_html tags opens
    render_html-tags role [] = refl
    render_html-tags role (block ∷ blocks) =
        opens-append (html_block json markdown_to_html role block)
          (render_html json markdown_to_html role blocks)
        ∙ omega (arith, opens-html_block role block, render_html-tags role blocks)
