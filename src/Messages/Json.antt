-- ===== src/Messages/Json.antt =====
-- `serde_json::Value` as messages.rs and hook_cmd.rs look at it. The package is not part of the
-- repository: a value is only known by the answers of these functions.
use agent_dash.Prelude.{String, Bool, Option, List, and_then}

pub record Json (V : Type 0) : Type 0 where
  pub from_str : String → Option V
  pub as_str : V → Option String
  pub as_array : V → Option (List V)
  pub is_object : V → Bool
  pub get : String → V → Option V

-- `v.get(key).and_then(|v| v.as_str())`
abbrev pub get_str : {V : Type 0} → Json V → String → V → Option String
get_str json key v = and_then (json.get key v) json.as_str
