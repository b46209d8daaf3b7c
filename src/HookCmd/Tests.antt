-- ===== src/HookCmd/Tests.antt =====
-- A hook's input and a decision, after the tests of hook_cmd.rs, and the theorems at them.
use agent_dash.Prelude.{ℕ, ◌≡◌, refl, none, some, ◌==◌, if◌then◌else◌, nat_eq}
use agent_dash.Paths.{replace}
use agent_dash.Messages.Json.{Json}
use agent_dash.Protocol.{HookPermissionDecision, tool_end}
use agent_dash.HookCmd.{event, run, dispatch}

-- values are numbers: 0 is the input, 1 and 2 the texts of its fields
abbrev json : Json ℕ
json = record {
  from_str = λ s. if s == "{}" then some 0 else none;
  as_str = λ v. if nat_eq v 1 then some "s1" else if nat_eq v 2 then some "tu1" else none;
  as_array = λ v. none;
  is_object = λ v. nat_eq v 0;
  get = λ key v.
      if key == "session_id" then some 1 else if key == "tool_use_id" then some 2 else none;
}

sent : run json "perm-1" "post_tool_use" "{}" ≡ some (event (tool_end "s1" "tu1"))
unfolding run dispatch replace
sent = refl

abbrev denial : HookPermissionDecision ℕ
denial = record { request_id = "r"; decision = "deny"; suggestion = none }
