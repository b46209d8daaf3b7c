-- ===== src/Watcher.antt =====
-- crates/agent-dash/src/watcher.rs: the two maps of `SessionWatcher`. Whether the operating system
-- accepts a watch is an argument; the channels around it are not modelled.
pub mod Maps
mod Tests
use agent_dash.Prelude.{String, Bool, true, false, Option, none, some, [], if◌then◌else◌}
use agent_dash.Table.{Table, lookup, contains_key, insert, remove}

pub record SessionWatcher : Type 0 where
  pub session_to_path : Table String
  pub path_to_session : Table String

unfoldable pub new : SessionWatcher
new = record { session_to_path = []; path_to_session = [] }

unfoldable pub unwatch : String → SessionWatcher → SessionWatcher
unwatch session w = elim (lookup session w.session_to_path) [
  | none ↦ w
  | some path ↦ record {
    session_to_path = remove session w.session_to_path;
    path_to_session = remove path w.path_to_session;
  }
]

-- `accepted` is the result of the operating system's watch
unfoldable pub watch : Bool → String → String → SessionWatcher → SessionWatcher
watch accepted session path w =
    let w₁ = if contains_key session w.session_to_path then unwatch session w else w in
    if accepted
    then record {
      session_to_path = insert session path w₁.session_to_path;
      path_to_session = insert path session w₁.path_to_session;
    }
    else w₁

abbrev pub is_watching : String → SessionWatcher → Bool
is_watching session w = contains_key session w.session_to_path

-- the session that a change of the file is reported for, if any
abbrev pub reported : String → SessionWatcher → Option String
reported path w = lookup path w.path_to_session
