-- ===== src/Messages/Blocks.antt =====
-- crates/agent-dash/src/messages.rs: the content blocks of a line of a transcript.
use agent_dash.Prelude.{
  ℕ, ◌-◌, String, Option, none, some, List, [], ◌∷◌, ◌==◌, ◌||◌, if◌then◌else◌, filter_map,
  unwrap_or, and_then, ◌>>=◌, map_option, is_empty, length, drop, ltb,
}
use agent_dash.Protocol.{
  ContentBlock, text, tool_use, tool_result, ChatContent, structured, rendered, ChatMessage,
}
use agent_dash.Messages.Json.{Json, get_str}
use agent_dash.Messages.Strings.{trim, join}
use agent_dash.Messages.Markdown.{render_markdown}
use agent_dash.Messages.Html.{render_html}

-- `Option::or_else` on values already computed
abbrev pub or_else : {A : Type 0} → Option A → Option A → Option A
or_else none o = o
or_else (some a) o = some a

abbrev pub non_empty : String → Option String
non_empty s = if s == "" then none else some s

module _ {V : Type 0} (json : Json V) where
  abbrev pub str_or_empty : String → V → String
  str_or_empty key v = unwrap_or (get_str json key v) ""

  -- the loop over the common keys
  unfoldable pub first_str : List String → V → String
  first_str [] v = ""
  first_str (key ∷ keys) v =
      let rest = first_str keys v in elim (get_str json key v) [ none ↦ rest | some s ↦ s ]

  -- the `match name`
  unfoldable pub tool_detail : String → V → String
  tool_detail name v =
      if name == "Bash"
      then str_or_empty "command" v
      else if name == "Read" || name == "Edit" || name == "Write"
      then str_or_empty "file_path" v
      else if name == "Grep"
      then str_or_empty "pattern" v
      else if name == "Glob"
      then str_or_empty "pattern" v
      else if name == "WebFetch"
      then str_or_empty "url" v
      else if name == "WebSearch"
      then str_or_empty "query" v
      else if name == "TaskCreate"
      then str_or_empty "subject" v
      else if name == "TaskUpdate"
      then str_or_empty "status" v
      else if name == "Task" || name == "Skill"
      then unwrap_or
          (and_then (or_else (json.get "description" v) (json.get "skill" v)) json.as_str) ""
      else if name == "NotebookEdit"
      then str_or_empty "notebook_path" v
      else first_str ("file_path" ∷ "path" ∷ "command" ∷ "pattern" ∷ "query" ∷ "url" ∷ []) v

  unfoldable pub extract_tool_detail : String → Option V → String
  extract_tool_detail name none = ""
  extract_tool_detail name (some v) = if json.is_object v then tool_detail name v else ""

  abbrev pub tool_name_from_result : V → String
  tool_name_from_result obj =
      unwrap_or (and_then (or_else (json.get "name" obj) (json.get "tool_name" obj)) json.as_str)
        "tool"

  -- the text of a part of a tool's result, if it is one
  abbrev pub text_part : V → Option String
  text_part item = elim (get_str json "type" item) [
    | none ↦ none
    | some kind ↦ if kind == "text" then get_str json "text" item else none
  ]

  abbrev pub joined_parts : List String → Option String
  joined_parts parts = if is_empty parts then none else some (join "\n" parts)

  unfoldable pub extract_tool_result_output : V → Option String
  extract_tool_result_output obj = elim (json.get "content" obj) [
    | none ↦ none
    | some content ↦ elim (json.as_str content) [
      | some s ↦ non_empty s
      | none ↦ elim (json.as_array content) [
        | none ↦ none
        | some items ↦ joined_parts (filter_map text_part items)
      ]
    ]
  ]

  abbrev pub tool_use_block : V → String → ContentBlock V
  tool_use_block obj name =
      let input = json.get "input" obj in tool_use name (extract_tool_detail name input) input

  unfoldable pub block_of_type : String → V → Option (ContentBlock V)
  block_of_type kind obj =
      if kind == "text"
      then map_option text (and_then (get_str json "text" obj) non_empty)
      else if kind == "tool_use"
      then map_option (tool_use_block obj) (get_str json "name" obj)
      else if kind == "tool_result"
      then some (tool_result (tool_name_from_result obj) (extract_tool_result_output obj))
      else none

  unfoldable pub parse_one_block : V → Option (ContentBlock V)
  parse_one_block item =
      if json.is_object item
      then and_then (get_str json "type" item) (λ kind. block_of_type kind item)
      else none

  unfoldable pub parse_content_blocks : V → List (ContentBlock V)
  parse_content_blocks content = elim (json.as_str content) [
    | some s ↦ if s == "" then [] else text s ∷ []
    | none ↦ elim (json.as_array content) [
      | none ↦ []
      | some items ↦ filter_map parse_one_block items
    ]
  ]

  abbrev pub role_of : String → Option String
  role_of msg_type =
      if msg_type == "user" || msg_type == "human"
      then some "user"
      else if msg_type == "assistant"
      then some "assistant"
      else none

  module _ (markdown_to_html : String → String) where
    abbrev pub content_of : String → String → List (ContentBlock V) → ChatContent V
    content_of format role blocks =
        if format == "markdown"
        then rendered (render_markdown blocks)
        else if format == "html"
        then rendered (render_html json markdown_to_html role blocks)
        else structured blocks

    abbrev pub message_of : String → String → List (ContentBlock V) → Option (ChatMessage V)
    message_of format role blocks =
        if is_empty blocks
        then none
        else some (record { role = role; content = content_of format role blocks })

    -- the role and the content of an entry, if it is a message
    abbrev pub entry : V → Option (String × V)
    entry v = do
      msg_type ← get_str json "type" v
      role ← role_of msg_type
      message ← json.get "message" v
      content ← json.get "content" message
      some (role, content)

    abbrev pub message_of_entry : String → String × V → Option (ChatMessage V)
    message_of_entry format (role, content) = message_of format role (parse_content_blocks content)

    abbrev pub message_of_value : String → V → Option (ChatMessage V)
    message_of_value format v =
        if json.is_object v then and_then (entry v) (message_of_entry format) else none

    unfoldable pub parse_one_line : String → String → Option (ChatMessage V)
    parse_one_line line format =
        if trim line == ""
        then none
        else and_then (json.from_str (trim line)) (message_of_value format)

    abbrev pub parse_lines : List String → String → List (ChatMessage V)
    parse_lines lines format = filter_map (λ line. parse_one_line line format) lines

    -- `read_messages`, on the lines that `read_tail_lines` has read
    unfoldable pub last_messages : List String → ℕ → String → List (ChatMessage V)
    last_messages lines limit format =
        let all = parse_lines lines format in
        if ltb limit (length all) then drop (length all - limit) all else all
