-- ===== src/Protocol/Requests.antt =====
-- crates/agent-dash-core/src/protocol.rs: what clients, hooks and wrappers ask of the daemon.
use agent_dash.Prelude.{ℕ, String, Bool, Option, List}
use agent_dash.Protocol.{ImageAttachment}

pub data ClientRequest (V : Type 0) : Type 0 where
  subscribe : ClientRequest V
  get_state : (include_subagents : Bool) → ClientRequest V
  permission_response :
      (request_id session_id decision : String) (suggestion : Option V) → ClientRequest V
  permission_request :
      (request_id session_id tool detail : String) (suggestions : List V) → ClientRequest V
  get_messages : (session_id : String) (format : Option String) (limit : Option ℕ) → ClientRequest V
  watch_session : (session_id : String) (format : Option String) → ClientRequest V
  unwatch_session : (session_id : String) → ClientRequest V
  list_sessions : (project : String) → ClientRequest V
  register_wrapper :
      (session_id agent : String) (cwd branch project_name real_session_id : Option String)
      → ClientRequest V
  unregister_wrapper : (session_id : String) → ClientRequest V
  send_prompt : (session_id text : String) (images : List ImageAttachment) → ClientRequest V
  update_suggestion : (session_id : String) (suggestion : Option String) → ClientRequest V
  update_thinking_text : (session_id : String) (thinking_text : Option String) → ClientRequest V
  watch_terminal : (session_id : String) → ClientRequest V
  unwatch_terminal : (session_id : String) → ClientRequest V
  terminal_output : (session_id payload : String) → ClientRequest V
  create_session : (agent cwd : Option String) (cols rows : Option ℕ) → ClientRequest V
  terminal_input : (session_id payload : String) → ClientRequest V
  terminal_resize : (session_id : String) (cols rows : ℕ) → ClientRequest V
  list_directory : (path : Option String) → ClientRequest V
