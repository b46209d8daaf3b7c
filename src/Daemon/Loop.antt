-- ===== src/Daemon/Loop.antt =====
-- crates/agent-dash/src/client_listener.rs, `ClientMessage`, and crates/agent-dash/src/daemon.rs, the
-- loop of `run`: one turn for each hook event, client message, change of a file or tick of the timer.
use agent_dash.Prelude.{ℕ, String, Bool, false, Option, List, [], ◌∷◌}
use agent_dash.Protocol.{HookEnvelope, ImageAttachment}
use agent_dash.State
use agent_dash.Watcher
use agent_dash.Daemon.{Daemon, Env, write_tick}
use agent_dash.Daemon.Hook.{handle_hook}
use agent_dash.Daemon.Requests.{
  handle_subscribe, handle_get_state, handle_permission_response, handle_permission_request,
}
use agent_dash.Daemon.Wrappers.{
  Registration, handle_register_wrapper, handle_unregister_wrapper, handle_update_suggestion,
  handle_update_thinking_text, handle_send_prompt,
}
use agent_dash.Daemon.Transcripts.{
  handle_list_sessions, handle_get_messages, handle_watch_session, handle_unwatch_session,
  handle_file_changed,
}
use agent_dash.Daemon.Terminals.{
  handle_watch_terminal, handle_unwatch_terminal, handle_terminal_output, handle_terminal_input,
  handle_terminal_resize, handle_create_session,
}

pub data ClientMessage (V : Type 0) : Type 0 where
  subscribe : (tx : ℕ) → ClientMessage V
  get_state : (include_subagents : Bool) (reply : ℕ) → ClientMessage V
  permission_response :
      (request_id session_id decision : String) (suggestion : Option V) → ClientMessage V
  permission_request :
      (request_id session_id tool detail : String) (suggestions : List V) (reply : ℕ)
      → ClientMessage V
  get_messages : (session_id format : String) (limit reply : ℕ) → ClientMessage V
  watch_session : (session_id format : String) (tx : ℕ) → ClientMessage V
  unwatch_session : (session_id : String) → ClientMessage V
  list_sessions : (project : String) (reply : ℕ) → ClientMessage V
  register_wrapper : (registration : Registration) → ClientMessage V
  unregister_wrapper : (session_id : String) → ClientMessage V
  send_prompt :
      (session_id text : String) (images : List ImageAttachment) (reply : ℕ) → ClientMessage V
  update_suggestion : (session_id : String) (suggestion : Option String) → ClientMessage V
  update_thinking_text : (session_id : String) (thinking_text : Option String) → ClientMessage V
  watch_terminal : (session_id : String) (tx : ℕ) → ClientMessage V
  unwatch_terminal : (session_id : String) → ClientMessage V
  terminal_output : (session_id payload : String) → ClientMessage V
  create_session : (agent cwd : Option String) (cols rows : Option ℕ) (reply : ℕ) → ClientMessage V
  terminal_input : (session_id payload : String) → ClientMessage V
  terminal_resize : (session_id : String) (cols rows : ℕ) → ClientMessage V

-- the arms of `tokio::select!`
pub data Turn (V : Type 0) : Type 0 where
  hook : (envelope : HookEnvelope) → Turn V
  client : (message : ClientMessage V) → Turn V
  file_changed : (session_id path : String) → Turn V
  tick : Turn V

-- the variables before the loop
abbrev pub new : {V P : Type 0} → Daemon V P
new = record {
  state = agent_dash.State.new;
  subscribers = [];
  permission_waiters = [];
  session_watcher = agent_dash.Watcher.new;
  message_subscribers = [];
  wrapper_channels = [];
  terminal_subscribers = [];
  terminal_parsers = [];
  state_dirty = false;
  attempts = 0;
  outputs = [];
}

module _ {V P : Type 0} (env : Env V P) where
  unfoldable pub handle_client : ClientMessage V → Daemon V P → Daemon V P
  handle_client (subscribe tx) d = handle_subscribe env tx d
  handle_client (get_state include_subagents reply) d =
      handle_get_state env include_subagents reply d
  handle_client (permission_response rid sid decision suggestion) d =
      handle_permission_response env rid decision suggestion d
  handle_client (permission_request rid sid tool detail suggestions reply) d =
      handle_permission_request env rid sid tool detail suggestions reply d
  handle_client (get_messages sid format limit reply) d =
      handle_get_messages env sid format limit reply d
  handle_client (watch_session sid format tx) d = handle_watch_session env sid format tx d
  handle_client (unwatch_session sid) d = handle_unwatch_session sid d
  handle_client (list_sessions project reply) d = handle_list_sessions env project reply d
  handle_client (register_wrapper registration) d = handle_register_wrapper env registration d
  handle_client (unregister_wrapper sid) d = handle_unregister_wrapper env sid d
  handle_client (send_prompt sid text images reply) d =
      handle_send_prompt env sid text images reply d
  handle_client (update_suggestion sid suggestion) d = handle_update_suggestion env sid suggestion d
  handle_client (update_thinking_text sid text) d = handle_update_thinking_text env sid text d
  handle_client (watch_terminal sid tx) d = handle_watch_terminal env sid tx d
  handle_client (unwatch_terminal sid) d = handle_unwatch_terminal sid d
  handle_client (terminal_output sid payload) d = handle_terminal_output env sid payload d
  handle_client (create_session agent cwd cols rows reply) d =
      handle_create_session env agent cwd cols rows reply d
  handle_client (terminal_input sid payload) d = handle_terminal_input env sid payload d
  handle_client (terminal_resize sid cols rows) d = handle_terminal_resize env sid cols rows d

  -- one turn of the loop
  unfoldable pub turn : Turn V → Daemon V P → Daemon V P
  turn (hook envelope) d = handle_hook env envelope d
  turn (client message) d = handle_client message d
  turn (file_changed sid path) d = handle_file_changed env sid path d
  turn tick d = write_tick d

module _ {V P : Type 0} where
  -- the turns of the loop, each with the world around it
  unfoldable pub run : List (Env V P × Turn V) → Daemon V P → Daemon V P
  run [] d = d
  run ((env, t) ∷ turns) d = run turns (turn env t d)
