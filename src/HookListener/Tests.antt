-- ===== src/HookListener/Tests.antt =====
-- The hook of a tool's use in a fresh daemon.
use agent_dash.Prelude.{ℕ, none, some, ◌≡◌, refl, ◌==◌, if◌then◌else◌, nat_eq, map_option, and_then}
use agent_dash.Messages.Json.{Json}
use agent_dash.Messages.Strings.{trim_start, trim_end}
use agent_dash.Session.{working}
use agent_dash.Protocol.{HookEnvelope, tool_start}
use agent_dash.State.Hooks.{activity}
use agent_dash.Daemon.Hook.{handle_hook}
use agent_dash.Daemon.Loop.{new}
use agent_dash.Daemon.Tests.{env}
use agent_dash.HookCmd.{run, extract_tool_detail}
use agent_dash.HookListener.{handle_hook_connection}
use agent_dash.HookListener.Shown.{send, tool_use_shown}

-- values are numbers: 0 is the input, the others the texts of its fields
abbrev json : Json ℕ
json = record {
  from_str = λ s. some 0;
  as_str = λ v. if nat_eq v 1 then some "s1" else some "WebX";
  as_array = λ v. none;
  is_object = λ v. nat_eq v 0;
  get = λ key v. if key == "session_id" then some 1 else some 2;
}

abbrev envelope : HookEnvelope
envelope = record { event = tool_start "s1" "WebX" "WebX" "WebX"; wrapper_id = some "w1" }

empty_connection : handle_hook_connection (λ s. some envelope) (some " \n") ≡ none
unfolding handle_hook_connection trim_start trim_end
empty_connection = refl

tool_use_shown_example :
    map_option
      (λ e. activity "s1" (handle_hook env e new).state)
      (handle_hook_connection
        (λ s. if s == "e" then some envelope else none)
        (and_then (run json "f" "pre_tool_use" "{}") (send (λ e. some "e") (some "w1"))))
    ≡ some (some (record { status = working; tool = some ("WebX", "WebX", "WebX") }))
unfolding extract_tool_detail trim_start trim_end
tool_use_shown_example =
    tool_use_shown json 0 env (λ e. some "e") (λ s. if s == "e" then some envelope else none) "f"
      "{}" "e" (some "w1") new refl refl refl refl refl
