-- ===== src/Messages/Html.antt =====
-- crates/agent-dash/src/messages.rs: content blocks as HTML. What comrak makes of a markdown text is
-- a parameter.
pub mod Safe
use agent_dash.Prelude.{
  ℕ, zero, suc, ◌+◌, ◌-◌, ◌/◌, ◌%◌, String, Bool, true, false, Option, none, some, List, [], ◌∷◌,
  ◌==◌, ◌||◌, ◌&&◌, if◌then◌else◌, nat_eq, leb, ltb, unwrap_or, and_then, length, take, drop, any,
}
use Prim.Native.Char.{Char, code}
use Prim.Native.String as S
use Prim.Native.String.{◌++◌, len, slice}
use package.text.Mathlib.Text.{starts_with}
use agent_dash.Protocol.{ContentBlock, text, tool_use, tool_result}
use agent_dash.Messages.{escape_html, truncate_detail, task_status_icon}
use agent_dash.Messages.Json.{Json, get_str}
use agent_dash.Messages.Strings.{trim, lines, show}

abbrev pub ends_with : String → String → Bool
ends_with s t = leb (len t) (len s) && slice s (len s - len t) (len s) == t

-- `matches(t).count()`, for a text that does not overlap with itself
unfoldable pub count_matches : String → String → ℕ
count_matches S.[] t = 0
count_matches (S.◌∷◌ c s) t =
    let later = count_matches s t in if starts_with (S.◌∷◌ c s) t then 1 + later else later

unfoldable pub strip_outer_p : String → String
strip_outer_p html =
    let trimmed = trim html in
    if starts_with trimmed "<p>"
      && ends_with trimmed "</p>"
      && nat_eq (count_matches trimmed "<p>") 1
    then slice trimmed 3 (len trimmed - 4)
    else trimmed

-- what stands before the first of some characters, and after it
unfoldable pub split_at : Char → String → Option (String × String)
split_at sep S.[] = none
split_at sep (S.◌∷◌ c s) =
    let later = split_at sep s in
    if nat_eq (code c) (code sep)
    then some (S.[], s)
    else elim later [ none ↦ none | some (before, after) ↦ some (S.◌∷◌ c before, after) ]

-- `strip_prefix(c)`
unfoldable pub strip_char : Char → String → Option String
strip_char prefix S.[] = none
strip_char prefix (S.◌∷◌ c s) = if nat_eq (code c) (code prefix) then some s else none

-- `#N [status] Subject`: the status and the subject
unfoldable pub parse_task : String → Option (String × String)
parse_task trimmed = and_then (and_then (strip_char "#" trimmed) (split_at " ")) (λ (number, after).
    and_then (strip_char "[" after)
      (λ inside. and_then (split_at "]" inside) (λ (status, rest). some (status, trim rest))))

abbrev pub task_div : String → String → String
task_div status subject =
    let (icon, css_class) = task_status_icon status in
    "<div class=\"task-item "
    ++ (css_class
        ++ ("\">"
            ++ (icon
                ++ (" <span class=\"task-subject\">" ++ (escape_html subject ++ "</span></div>")))))

unfoldable pub task_line : String → String
task_line line =
    let trimmed = trim line in
    if trimmed == "" then "" else elim (parse_task trimmed) [
      | none ↦ "<div class=\"task-item\">" ++ (escape_html trimmed ++ "</div>")
      | some (status, subject) ↦ task_div status subject
    ]

unfoldable pub task_lines : List String → String
task_lines [] = ""
task_lines (line ∷ rest) = task_line line ++ task_lines rest

unfoldable pub render_task_list_result : String → String
render_task_list_result output =
    "<div class=\"task-list\">" ++ (task_lines (lines output) ++ "</div>")

-- the characters that a text of the agent may begin with instead of our bullet
abbrev pub starts_with_bullet : String → Bool
starts_with_bullet t =
    any (starts_with t) ("●" ∷ "·" ∷ "✢" ∷ "*" ∷ "✳" ∷ "✶" ∷ "✻" ∷ "✽" ∷ "•" ∷ [])

unfoldable pub text_div : (role t inline : String) → String
text_div role t inline =
    if role == "user" || starts_with_bullet t
    then "<div class=\"block-text\">" ++ (inline ++ "</div>")
    else "<div class=\"block-text\">• " ++ (inline ++ "</div>")

unfoldable pub all_digits : String → Bool
all_digits S.[] = true
all_digits (S.◌∷◌ c s) = (leb b'0' (code c) && leb (code c) b'9') && all_digits s

-- the label of a task that is updated
abbrev pub task_display : Option String → String
task_display none = "Task"
task_display (some label) = if all_digits label then "Task #" ++ label else label

unfoldable pub tool_div : (name detail : String) → String
tool_div name detail =
    if detail == ""
    then "<div class=\"block-tool-use\">• <strong>" ++ (escape_html name ++ "</strong></div>")
    else "<div class=\"block-tool-use\">• <strong>"
      ++ (escape_html name
          ++ ("</strong>(<span class=\"tool-detail\">"
              ++ (escape_html (truncate_detail detail 80) ++ "</span>)</div>")))

-- the lines of an output, the first with a corner before it
abbrev pub prefix : Bool → String
prefix is_first = if is_first then "└─ " else "   "

unfoldable pub output_lines : Bool → List String → String
output_lines is_first [] = ""
output_lines is_first (line ∷ rest) =
    ("<div class=\"tool-output-line\">" ++ (prefix is_first ++ (escape_html line ++ "</div>")))
    ++ output_lines false rest

unfoldable pub full_lines : List String → String
full_lines [] = ""
full_lines (line ∷ rest) = (escape_html line ++ "\n") ++ full_lines rest

abbrev pub collapsed : List String → String
collapsed ls =
    output_lines true (take 3 ls)
    ++ ("<details class=\"tool-output-collapsed\"><summary>   … +"
        ++ (show (length ls - 3)
            ++ (" lines (click to expand)</summary><pre class=\"tool-output-full\">"
                ++ (full_lines (drop 3 ls) ++ "</pre></details>"))))

unfoldable pub output_div : List String → String
output_div [] = ""
output_div (l ∷ ls) =
    "<div class=\"block-tool-result\">"
    ++ ((if leb (length (l ∷ ls)) 5 then output_lines true (l ∷ ls) else collapsed (l ∷ ls))
        ++ "</div>")

abbrev pub is_quiet_task : String → Bool
is_quiet_task name = name == "TaskCreate" || name == "TaskUpdate" || name == "TaskGet"

module _ {V : Type 0} (json : Json V) where
  abbrev pub input_str : String → Option V → Option String
  input_str key input = and_then input (get_str json key)

  abbrev pub task_label : Option V → Option String
  task_label input = elim (input_str "subject" input) [
    | none ↦ input_str "taskId" input
    | some subject ↦ some subject
  ]

module _ {V : Type 0} (json : Json V) (markdown_to_html : String → String) where
  -- what a block adds; the icon and the class of a new task are those of a pending one
  unfoldable pub html_block : String → ContentBlock V → String
  html_block role (text t) = text_div role t (strip_outer_p (markdown_to_html t))
  html_block role (tool_use name detail input) =
      if name == "TaskCreate"
      then task_div "pending" (unwrap_or (input_str json "subject" input) detail)
      else if name == "TaskUpdate"
      then task_div (unwrap_or (input_str json "status" input) "")
          (task_display (task_label json input))
      else tool_div name detail
  html_block role (tool_result name none) = ""
  html_block role (tool_result name (some output)) =
      if is_quiet_task name
      then ""
      else if name == "TaskList"
      then render_task_list_result output
      else output_div (lines output)

  unfoldable pub render_html : String → List (ContentBlock V) → String
  render_html role [] = ""
  render_html role (block ∷ blocks) = html_block role block ++ render_html role blocks
