-- ===== src/HookListener.antt =====
-- crates/agent-dash/src/hook_listener.rs: a connection that a hook process makes for one event. Serde
-- and the socket are parameters: what was read, as text, and what it decodes to.
mod Shown
mod Tests
use agent_dash.Prelude.{String, Option, none, some, ◌==◌, if◌then◌else◌, and_then}
use agent_dash.Messages.Strings.{trim}
use agent_dash.Protocol.{HookEnvelope}

-- the event that is handed to the main loop, if any
unfoldable pub handle_hook_connection :
    (String → Option HookEnvelope) → Option String → Option HookEnvelope
handle_hook_connection read none = none
handle_hook_connection read (some text) = if trim text == "" then none else read (trim text)
