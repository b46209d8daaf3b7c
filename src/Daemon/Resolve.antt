-- ===== src/Daemon/Resolve.antt =====
-- crates/agent-dash/src/daemon.rs: session ids that may be truncated, and the transcript of a
-- session.
pub mod Keys
pub mod Unordered
use agent_dash.Prelude.{
  String, Bool, Option, none, some, List, [], ◌∷◌, ◌==◌, if◌then◌else◌, filter, and_then,
  map_option, is_some,
}
use text.Mathlib.Text.{starts_with}
use agent_dash.Table.{Table, lookup, contains_key, keys}
use agent_dash.State.{DaemonState, InternalSession, session_at, is_opt_str}

-- `if matches.len() == 1 { Some(matches[0]) } else { None }`
abbrev pub the_only {ℓ} : {A : Type ℓ} → List A → Option A
the_only [] = none
the_only (a ∷ []) = some a
the_only (a ∷ b ∷ rest) = none

abbrev pub or_option {ℓ} : {A : Type ℓ} → Option A → Option A → Option A
or_option none o = o
or_option (some a) o = some a

module _ {ℓ} {A : Type ℓ} where
  -- the entries whose key starts with the given text
  abbrev pub with_prefix : String → Table A → Table A
  with_prefix id = filter λ e. starts_with e.0 id

-- the channel of a wrapper: an exact match first, then a unique prefix
unfoldable pub find_wrapper_tx {ℓ} : {A : Type ℓ} → String → Table A → Option A
find_wrapper_tx id channels =
    or_option (lookup id channels) (map_option (λ e. e.1) (the_only (with_prefix id channels)))

module _ {V : Type 0} where
  unfoldable pub resolve_session_key : String → DaemonState V → Option String
  resolve_session_key id st =
      if contains_key id st.sessions
      then some id
      else map_option (λ e. e.0) (the_only (with_prefix id st.sessions))

-- the loop over the children of a wrapper
unfoldable pub child_path :
    (String → Option String) → String → Table InternalSession → Option String
child_path on_disk id [] = none
child_path on_disk id ((_, child) ∷ rest) =
    let later = child_path on_disk id rest in
    if is_opt_str child.parent_wrapper_id id
    then or_option child.jsonl_path (or_option (on_disk child.session_id) later)
    else later

module _ {V : Type 0} (on_disk : String → Option String) where
  unfoldable pub resolve_jsonl_path : String → DaemonState V → Option String
  resolve_jsonl_path id st = or_option (and_then (session_at id st) (λ s. s.jsonl_path)) (
      or_option (and_then (the_only (with_prefix id st.sessions)) (λ e. e.1.jsonl_path))
        (or_option (child_path on_disk id st.sessions) (on_disk id)))
