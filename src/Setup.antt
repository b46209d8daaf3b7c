-- ===== src/Setup.antt =====
-- crates/agent-dash/src/setup.rs: the hooks that are merged into the settings of the agent. A
-- `serde_json::Value` is known by its accessors and constructors, and a `Map` is a table.
pub mod Entries
pub mod Merged
pub mod Stable
mod Tests
use agent_dash.Prelude.{
  ℕ, String, Bool, true, false, Option, none, some, List, [], ◌∷◌, ◌++◌, ◌==◌, ◌||◌, ◌&&◌, not,
  if◌then◌else◌, and_then, is_some, unwrap_or, any, filter, map_option,
}
use package.text.Mathlib.Text.{starts_with}
use agent_dash.Messages.Strings.{contains}
use agent_dash.Table.{Table, lookup, insert, remove, contains_key}

-- what setup.rs asks of `serde_json`: the accessors, the constructors and `==`. A table keeps the
-- order of its keys, where the `Map` of serde_json sorts them: under the laws of
-- Setup/Entries two objects that differ in this order alone are different values, which they are not
-- in serde_json.
pub record Value (V : Type 0) : Type 0 where
  pub as_object : V → Option (Table V)
  pub as_array : V → Option (List V)
  pub as_str : V → Option String
  pub object : Table V → V
  pub array : List V → V
  pub string : String → V
  pub equal : V → V → Bool

-- the hook events with their commands
abbrev pub hook_entries : List (String × String)
hook_entries =
    ("PreToolUse", "agent-dash hook pre-tool-use")
    ∷ ("PostToolUse", "agent-dash hook post-tool-use")
    ∷ ("PermissionRequest", "agent-dash hook permission")
    ∷ ("Stop", "agent-dash hook stop")
    ∷ ("SessionStart", "agent-dash hook session-start")
    ∷ ("SessionEnd", "agent-dash hook session-end")
    ∷ []

unfoldable pub is_agent_dash_command : String → Bool
is_agent_dash_command cmd = starts_with cmd "agent-dash hook" || contains cmd "agent-dash-hook"

-- makes an entry where there is none
abbrev pub or_insert {ℓ} : {V : Type ℓ} → String → V → Table V → Table V
or_insert key v m = if contains_key key m then m else insert key v m

module _ {V : Type 0} (json : Value V) where
  -- `v.get(key)` on an object
  abbrev pub get : String → V → Option V
  get key v = and_then (json.as_object v) (lookup key)

  -- `v.get("command").and_then(|v| v.as_str())`, where it is one of ours
  abbrev pub has_command : V → Bool
  has_command v =
      unwrap_or (map_option is_agent_dash_command (and_then (get "command" v) json.as_str)) false

  -- the nested format, then the flat one
  unfoldable pub is_agent_dash_entry : V → Bool
  is_agent_dash_entry entry =
      any has_command (unwrap_or (and_then (get "hooks" entry) json.as_array) [])
      || has_command entry

  unfoldable pub make_hook_entry : String → V
  make_hook_entry command = json.object (
      (
        "hooks",
        json.array (
            json.object (("type", json.string "command") ∷ ("command", json.string command) ∷ [])
            ∷ []),
      )
      ∷ [])

  -- the entries with the first of ours replaced, and the others of ours removed
  unfoldable pub replace_first : V → List V → List V
  replace_first target [] = []
  replace_first target (e ∷ es) =
      let rest = replace_first target es in
      if is_agent_dash_entry e
      then target ∷ filter (λ x. not (is_agent_dash_entry x)) es
      else e ∷ rest

  -- the three arms on the number of our entries, with whether something changed
  unfoldable pub merge_entries : V → List V → List V × Bool
  merge_entries target entries = elim (filter is_agent_dash_entry entries) [
    | [] ↦ (entries ++ target ∷ [], true)
    | e ∷ [] ↦
        if json.equal e target then (entries, false) else (replace_first target entries, true)
    | e ∷ f ∷ rest ↦ (replace_first target entries, true)
  ]

  -- the array of an event is merged in place
  unfoldable pub merge_event : (event command : String) → Table V → Table V × Bool
  merge_event event command hooks = elim (and_then (lookup event hooks) json.as_array) [
    | none ↦ (hooks, false)
    | some entries ↦
        let (merged, changed) = merge_entries (make_hook_entry command) entries in
        (insert event (json.array merged) hooks, changed)
  ]

  abbrev pub merge_single_hook : (event command : String) → Table V → Table V × Bool
  merge_single_hook event command hooks =
      merge_event event command (or_insert event (json.array []) hooks)

  abbrev pub all_ours : List V → Bool
  all_ours entries = not (any (λ e. not (is_agent_dash_entry e)) entries)

  unfoldable pub cleanup_invalid_event : String → Table V → Table V × Bool
  cleanup_invalid_event event hooks =
      if unwrap_or (map_option all_ours (and_then (lookup event hooks) json.as_array)) false
      then (remove event hooks, true)
      else (hooks, false)

  -- the loop over the events
  unfoldable pub merge_all : List (String × String) → Table V → Table V × Bool
  merge_all [] hooks = (hooks, false)
  merge_all ((event, command) ∷ events) hooks =
      let (hooks₁, one) = merge_single_hook event command hooks in
      let (hooks₂, others) = merge_all events hooks₁ in (hooks₂, one || others)

  -- The maps and the settings are changed in place: the functions give them back, with the result.
  unfoldable pub merge_table : Table V → Table V × Bool
  merge_table hooks =
      let (hooks₁, cleaned) = cleanup_invalid_event "NotificationStart" hooks in
      let (hooks₂, merged) = merge_all hook_entries hooks₁ in (hooks₂, cleaned || merged)

  unfoldable pub merge_root : Table V → Table V × Bool
  merge_root root = elim (and_then (lookup "hooks" root) json.as_object) [
    | none ↦ (root, false)
    | some hooks ↦
        let (merged, changed) = merge_table hooks in
        (insert "hooks" (json.object merged) root, changed)
  ]

  unfoldable pub merge_hooks : V → V × Bool
  merge_hooks settings = elim (json.as_object settings) [
    | none ↦ (settings, false)
    | some root ↦
        let (merged, changed) = merge_root (or_insert "hooks" (json.object []) root) in
        (json.object merged, changed)
  ]

  unfoldable pub has_agent_dash_hook : V → String → Bool
  has_agent_dash_hook settings event =
      unwrap_or
        (map_option (any is_agent_dash_entry)
          (and_then (and_then (get "hooks" settings) (get event)) json.as_array))
        false

  -- what the commands do with the settings file: an error ends them before it is written
  unfoldable pub install_hooks : Option V → (V → Bool) → Option Bool
  install_hooks none writes = none
  install_hooks (some settings) writes =
      let (merged, changed) = merge_hooks settings in
      if changed then (if writes merged then some true else none) else some false

  abbrev pub hooks_installed : Option V → Bool
  hooks_installed none = false
  hooks_installed (some settings) = has_agent_dash_hook settings "PreToolUse"
