-- ===== src/Messages/Markdown.antt =====
-- crates/agent-dash/src/messages.rs: content blocks as markdown.
use agent_dash.Prelude.{String, Option, none, some, List, [], ◌∷◌, ◌==◌, if◌then◌else◌, filter_map}
use Prim.Native.String.{◌++◌}
use agent_dash.Protocol.{ContentBlock, text, tool_use, tool_result}
use agent_dash.Messages.{truncate_output}
use agent_dash.Messages.Strings.{lines, join}

unfoldable pub quote_lines : List String → String
quote_lines [] = ""
quote_lines (line ∷ rest) = (("> " ++ line) ++ "\n") ++ quote_lines rest

-- a quoted block of code
abbrev pub quoted : String → String
quoted output = ("> ```\n" ++ quote_lines (lines (truncate_output output 500))) ++ "> ```"

abbrev pub tool_line : String → String → String
tool_line name detail =
    if detail == ""
    then ("> **" ++ name) ++ "**"
    else ((("> **" ++ name) ++ "**: `") ++ detail) ++ "`"

-- what a block adds to the parts, if anything
unfoldable pub render_block : {V : Type 0} → ContentBlock V → Option String
render_block (text t) = some t
render_block (tool_use name detail input) = some (tool_line name detail)
render_block (tool_result name none) = none
render_block (tool_result name (some output)) = some (quoted output)

unfoldable pub render_markdown : {V : Type 0} → List (ContentBlock V) → String
render_markdown blocks = join "\n\n" (filter_map render_block blocks)
