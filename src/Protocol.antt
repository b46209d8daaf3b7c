-- ===== src/Protocol.antt =====
-- crates/agent-dash-core/src/protocol.rs: the messages between hooks, clients, wrappers and the
-- daemon. `V` is the type of `serde_json::Value`, which the daemon hands on unread.
pub mod Requests
use agent_dash.Prelude.{ℕ, String, Bool, Option, List}
use agent_dash.Session.{DashSession}

pub data HookEvent : Type 0 where
  tool_start : (session_id tool detail tool_use_id : String) → HookEvent
  tool_end : (session_id tool_use_id : String) → HookEvent
  stop : (session_id : String) → HookEvent
  session_start : (session_id : String) (cwd : Option String) → HookEvent
  session_end : (session_id : String) → HookEvent

-- the or-pattern that daemon.rs uses to read the session of an event
abbrev pub event_session : HookEvent → String
event_session (tool_start session_id tool detail tool_use_id) = session_id
event_session (tool_end session_id tool_use_id) = session_id
event_session (stop session_id) = session_id
event_session (session_start session_id cwd) = session_id
event_session (session_end session_id) = session_id

pub record HookEnvelope : Type 0 where
  pub event : HookEvent
  pub wrapper_id : Option String

pub record ImageAttachment : Type 0 where
  pub mime_type : String
  pub payload : String

pub record HookPermissionDecision (V : Type 0) : Type 0 where
  pub request_id : String
  pub decision : String
  pub suggestion : Option V

pub data ContentBlock (V : Type 0) : Type 0 where
  text : String → ContentBlock V
  tool_use : (name detail : String) (input : Option V) → ContentBlock V
  tool_result : (name : String) (output : Option String) → ContentBlock V

pub data ChatContent (V : Type 0) : Type 0 where
  structured : List (ContentBlock V) → ChatContent V
  rendered : String → ChatContent V

pub record ChatMessage (V : Type 0) : Type 0 where
  pub role : String
  pub content : ChatContent V

pub record SessionListEntry : Type 0 where
  pub session_id : String
  pub main : Bool
  pub modified : ℕ

pub data ServerEvent (V : Type 0) : Type 0 where
  state_update : (sessions : List DashSession) → ServerEvent V
  permission_pending :
      (session_id request_id tool detail : String) (suggestions : List V) → ServerEvent V
  permission_resolved : (request_id resolved_by : String) → ServerEvent V
  messages : (session_id : String) (messages : List (ChatMessage V)) → ServerEvent V
  message : (session_id : String) (message : ChatMessage V) → ServerEvent V
  session_list : (project : String) (sessions : List SessionListEntry) → ServerEvent V
  prompt_sent : (session_id : String) → ServerEvent V
  inject_prompt : (text : String) → ServerEvent V
  terminal_data : (session_id payload : String) → ServerEvent V
  terminal_write : (payload : String) → ServerEvent V
  terminal_resize : (cols rows : ℕ) → ServerEvent V
  session_created : (session_id : String) → ServerEvent V
  force_redraw : ServerEvent V
  directory_listing : (path : String) (entries : List String) → ServerEvent V
  error : (message : String) → ServerEvent V
