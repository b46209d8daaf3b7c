-- ===== src/Messages/Tests.antt =====
-- Texts and lines after the tests of messages.rs, and the theorems at them.
use agent_dash.Prelude.{
  ℕ, ◌≤◌, String, ◌≡◌, refl, none, some, List, [], ◌∷◌, arith, nat_eq, ◌==◌, if◌then◌else◌,
}
use Prim.Native.String.{◌++◌ as ◌<>◌, len}
use package.text.Mathlib.TextBridge.{IsPrefix}
use agent_dash.Protocol.{ContentBlock, text, tool_use, tool_result, structured, ChatMessage}
use agent_dash.Messages.{escape_html, escape_char, truncate_output, boundary_below}
use agent_dash.Messages.Truncate.{truncate_output_lem}
use agent_dash.Messages.Json.{Json}
use agent_dash.Messages.Strings.{decimal, trim_start, trim_end, lines, lines_from, strip_cr, join}
use agent_dash.Messages.Markdown.{render_markdown, render_block}
use agent_dash.Messages.Html.{
  render_html, strip_outer_p, output_div, output_lines, full_lines, count_matches, parse_task,
  split_at, strip_char,
}
use agent_dash.Messages.Html.Safe.{opens, tags, render_html-tags}
use agent_dash.Messages.Blocks.{parse_content_blocks, parse_one_line}
use agent_dash.Messages.Files.{read_new_messages}
use agent_dash.Messages.Offsets.{holding, read_new_messages_twice}

escaped : escape_html "<a href=\"x\">&'" ≡ "&lt;a href=&quot;x&quot;&gt;&amp;&#x27;"
unfolding escape_html escape_char
escaped = refl

split : lines "a\r\nb\n\nc" ≡ "a" ∷ "b" ∷ "" ∷ "c" ∷ []
unfolding lines_from strip_cr
split = refl

markdown :
    render_markdown {V = ℕ} (text "hi" ∷ tool_use "Bash" "ls" none ∷ []) ≡ "hi\n\n> **Bash**: `ls`"
unfolding render_markdown render_block join
markdown = refl

-- the cut of six bytes falls inside the third character of two bytes
cut_inside : truncate_output "aéééé" 6 ≡ "aéé..."
unfolding truncate_output boundary_below
cut_inside = refl

abbrev six_lines : String
six_lines = "a\nb\nc\nd\n<e>\nf"

collapsed_output :
    output_div (lines six_lines)
    ≡ "<div class=\"block-tool-result\"><div class=\"tool-output-line\">└─ a</div><div class=\"tool-output-line\">   b</div><div class=\"tool-output-line\">   c</div><details class=\"tool-output-collapsed\"><summary>   … +3 lines (click to expand)</summary><pre class=\"tool-output-full\">d\n&lt;e&gt;\nf\n</pre></details></div>"
unfolding output_div output_lines full_lines decimal escape_html escape_char lines_from strip_cr
collapsed_output = refl

task_of_a_list : parse_task "#3 [completed] Write <tests>" ≡ some ("completed", "Write <tests>")
unfolding parse_task split_at strip_char trim_end trim_start
task_of_a_list = refl

one_paragraph : strip_outer_p "<p>a <b>c</b></p>\n" ≡ "a <b>c</b>"
unfolding strip_outer_p count_matches trim_end trim_start
one_paragraph = refl

two_paragraphs : strip_outer_p "<p>a</p><p>b</p>" ≡ "<p>a</p><p>b</p>"
unfolding strip_outer_p count_matches trim_end trim_start
two_paragraphs = refl

-- Values are numbers: 0 a user's message with the text of 1, every other number a text.
abbrev json : Json ℕ
json = record {
  from_str = λ s. if s == "{}" then some 0 else none;
  as_str = λ v. if nat_eq v 0 then none else if nat_eq v 1 then some "user" else some "hello";
  as_array = λ v. none;
  is_object = λ v. nat_eq v 0;
  get = λ key v. if key == "type" then some 1 else if key == "message" then some 0 else some 2;
}

-- a text in one paragraph
abbrev paragraph : String → String
paragraph t = "<p>" <> (t <> "</p>\n")

abbrev hello : ChatMessage ℕ
hello = record { role = "user"; content = structured (text "hello" ∷ []) }

truncate_output_lem_example :
    (truncate_output "ok" 6 ≡ "ok")
    × ((kept : String) × (truncate_output "aéééé" 6 ≡ kept <> "...")
        × IsPrefix kept "aéééé"
        × (len kept ≤ 6)
        × (5 ≤ len kept))
truncate_output_lem_example =
    truncate_output_lem "aéééé" "ok" 6 5 (omega arith) (omega arith) (omega arith) refl

read_new_messages_twice_example :
    read_new_messages json paragraph (holding "{}\n{}\n") "t" 0 "structured"
    ≡ (hello ∷ hello ∷ [], 6)
unfolding read_new_messages parse_one_line trim_start trim_end parse_content_blocks lines_from
    strip_cr
read_new_messages_twice_example =
    read_new_messages_twice json paragraph "t" "structured" "" "{}" "{}\n"

-- the same line is lost where the first reading ends inside it
half_written_line :
    (read_new_messages json paragraph (holding "{") "t" 0 "structured" ≡ ([], 1))
    × (read_new_messages json paragraph (holding "{}\n") "t" 1 "structured" ≡ ([], 3))
    × (read_new_messages json paragraph (holding "{}\n") "t" 0 "structured" ≡ (hello ∷ [], 3))
unfolding read_new_messages parse_one_line trim_start trim_end parse_content_blocks lines_from
    strip_cr
half_written_line = (refl, refl, refl)

abbrev injected : List (ContentBlock ℕ)
injected =
    text "hello"
    ∷ tool_use "Bash" "echo '<script>'" none
    ∷ tool_result "Bash" (some "<script>\n</script>")
    ∷ []

render_html-tags_example :
    opens (render_html json paragraph "assistant" injected) ≡ tags paragraph injected
render_html-tags_example = render_html-tags paragraph json "assistant" injected
