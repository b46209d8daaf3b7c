-- ===== src/Messages.antt =====
-- crates/agent-dash/src/messages.rs: the texts of rendered messages.
pub mod Escape
pub mod Truncate
pub mod Json
pub mod Strings
pub mod Markdown
pub mod Html
pub mod Blocks
pub mod Files
pub mod Offsets
pub mod Parsed
mod Tests
use agent_dash.Prelude.{ℕ, ◌+◌, ◌-◌, suc, zero, String, Bool, ◌==◌, if◌then◌else◌, nat_eq, leb}
use Prim.Native.Char.{Char, code}
use Prim.Native.String.{[], ◌∷◌, ◌++◌, len, slice}
use package.text.Mathlib.Text.{is_char_boundary}

-- one round of the loop of `escape_html`: what is pushed for a character, before the rest
unfoldable pub escape_char : Char → String → String
escape_char c rest =
    if nat_eq (code c) b'&'
    then "&" ∷ "a" ∷ "m" ∷ "p" ∷ ";" ∷ rest
    else if nat_eq (code c) b'<'
    then "&" ∷ "l" ∷ "t" ∷ ";" ∷ rest
    else if nat_eq (code c) b'>'
    then "&" ∷ "g" ∷ "t" ∷ ";" ∷ rest
    else if nat_eq (code c) b'"'
    then "&" ∷ "q" ∷ "u" ∷ "o" ∷ "t" ∷ ";" ∷ rest
    else if nat_eq (code c) 39
    then "&" ∷ "#" ∷ "x" ∷ "2" ∷ "7" ∷ ";" ∷ rest
    else c ∷ rest

unfoldable pub escape_html : String → String
escape_html [] = []
escape_html (c ∷ s) = escape_char c (escape_html s)

-- `while end > 0 && !s.is_char_boundary(end) { end -= 1 }`
unfoldable pub boundary_below : String → ℕ → ℕ
boundary_below s zero = zero
boundary_below s (suc n) =
    let rest = boundary_below s n in if is_char_boundary s (suc n) then suc n else rest

unfoldable pub truncate_output : String → ℕ → String
truncate_output s max_chars =
    if leb (len s) max_chars then s else slice s 0 (boundary_below s max_chars) ++ "..."

-- `chars().map(|c| if c == '\n' { ' ' } else { c })`
unfoldable pub on_one_line : String → String
on_one_line [] = []
on_one_line (c ∷ s) =
    let rest = on_one_line s in if nat_eq (code c) 10 then " " ∷ rest else c ∷ rest

unfoldable pub truncate_detail : String → ℕ → String
truncate_detail s max_len =
    let oneline = on_one_line s in
    if leb (len oneline) max_len
    then oneline
    else slice oneline 0 (boundary_below oneline max_len) ++ "…"

unfoldable pub task_status_icon : String → String × String
task_status_icon status =
    if status == "completed"
    then ("✔", "task-completed")
    else if status == "in_progress"
    then ("◼", "task-in_progress")
    else ("◻", "task-pending")
