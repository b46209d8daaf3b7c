-- ===== src/Listener.antt =====
-- crates/agent-dash/src/client_listener.rs: one connection of a client, a hook or a wrapper, as a
-- state machine over what it receives. Serde and the sockets are parameters: what a line decodes
-- to, what a value encodes to, and whether a write succeeds. A channel that the connection makes is
-- a number.
pub mod Tidy
pub mod Skipped
pub mod Composed
pub mod Left
mod Tests
use agent_dash.Prelude.{
  ℕ, ◌+◌, String, Bool, Option, none, some, List, [], ◌∷◌, ◌==◌, if◌then◌else◌, unwrap_or,
  map_option, ◌>>=◌,
}
use Prim.Native.String.{◌++◌}
use agent_dash.Messages.Strings.{trim}
use agent_dash.Protocol.{ServerEvent, HookPermissionDecision}
use agent_dash.Protocol.Requests.{ClientRequest}
use agent_dash.Daemon.Loop.{ClientMessage}

-- serde's readers and writers of the types that pass through a connection
pub record Codec (V : Type 0) : Type 0 where
  pub read_request : String → Option (ClientRequest V)
  pub event_json : ServerEvent V → Option String
  pub decision_json : HookPermissionDecision V → Option String

-- Where the code waits: for the next line, for a reply of the main loop, for what a channel pushes
-- until the client leaves, or, for a wrapper, for both lines and events.
pub data Mode (V : Type 0) : Type 0 where
  reading : Mode V
  awaiting_reply : Mode V
  awaiting_decision : Mode V
  streaming : (farewell : Option (ClientMessage V)) → Mode V
  wrapping : (session_id : String) → Mode V
  done : Mode V

pub record Conn (V : Type 0) : Type 0 where
  pub mode : Mode V
  pub next_channel : ℕ
  pub sent : List (ClientMessage V)
  pub written : List String

-- What a connection may receive. A sender that is dropped without a value gives `none`; a write to
-- the client comes with its success where the code looks at it.
pub data Input (V : Type 0) : Type 0 where
  line : (text : String) → Input V
  eof : Input V
  reply : (text : Option String) → Input V
  decision : (decision : Option (HookPermissionDecision V)) → Input V
  pushed : (text : String) (is_written : Bool) → Input V
  event : (event : ServerEvent V) (is_written : Bool) → Input V
  hung_up : Input V

abbrev pub format_or_default : Option String → String
format_or_default format = unwrap_or format "structured"

abbrev pub limit_or_default : Option ℕ → ℕ
limit_or_default limit = unwrap_or limit 50

module _ {V : Type 0} where
  abbrev pub start : Conn V
  start = record { mode = reading; next_channel = 0; sent = []; written = [] }

  abbrev pub send : ClientMessage V → Conn V → Conn V
  send m c = record c { sent = m ∷ c.sent }

  abbrev pub write : String → Conn V → Conn V
  write text c = record c { written = text ∷ c.written }

  abbrev pub enter : Mode V → Conn V → Conn V
  enter mode c = record c { mode = mode }

  -- makes a channel and sends its end with a message
  abbrev pub open_channel : (ℕ → ClientMessage V) → Mode V → Conn V → Conn V
  open_channel m mode c = record c {
    mode = mode;
    next_channel = c.next_channel + 1;
    sent = m c.next_channel ∷ c.sent;
  }

  -- the `match req`
  unfoldable pub dispatch : ClientRequest V → Conn V → Conn V
  dispatch ClientRequest.subscribe c = open_channel ClientMessage.subscribe (streaming none) c
  dispatch (ClientRequest.get_state include_subagents) c =
      open_channel (ClientMessage.get_state include_subagents) awaiting_reply c
  dispatch (ClientRequest.permission_response rid sid answer suggestion) c =
      send (ClientMessage.permission_response rid sid answer suggestion) c
  dispatch (ClientRequest.permission_request rid sid tool detail suggestions) c =
      open_channel (ClientMessage.permission_request rid sid tool detail suggestions)
        awaiting_decision c
  dispatch (ClientRequest.get_messages sid format limit) c =
      open_channel
        (ClientMessage.get_messages sid (format_or_default format) (limit_or_default limit))
        awaiting_reply c
  dispatch (ClientRequest.watch_session sid format) c =
      open_channel (ClientMessage.watch_session sid (format_or_default format))
        (streaming (some (ClientMessage.unwatch_session sid))) c
  dispatch (ClientRequest.unwatch_session sid) c = send (ClientMessage.unwatch_session sid) c
  dispatch (ClientRequest.list_sessions project) c =
      open_channel (ClientMessage.list_sessions project) awaiting_reply c
  dispatch (ClientRequest.register_wrapper sid agent cwd branch project_name real_session_id) c =
      open_channel
        (λ tx. ClientMessage.register_wrapper (record {
          session_id = sid;
          agent = agent;
          cwd = cwd;
          branch = branch;
          project_name = project_name;
          real_session_id = real_session_id;
          wrapper_tx = tx;
        }))
        (wrapping sid) c
  dispatch (ClientRequest.unregister_wrapper sid) c = send (ClientMessage.unregister_wrapper sid) c
  dispatch (ClientRequest.update_suggestion sid suggestion) c =
      send (ClientMessage.update_suggestion sid suggestion) c
  dispatch (ClientRequest.update_thinking_text sid thinking_text) c =
      send (ClientMessage.update_thinking_text sid thinking_text) c
  dispatch (ClientRequest.terminal_output sid payload) c =
      send (ClientMessage.terminal_output sid payload) c
  dispatch (ClientRequest.watch_terminal sid) c =
      open_channel (ClientMessage.watch_terminal sid)
        (streaming (some (ClientMessage.unwatch_terminal sid))) c
  dispatch (ClientRequest.unwatch_terminal sid) c = send (ClientMessage.unwatch_terminal sid) c
  dispatch (ClientRequest.send_prompt sid text images) c =
      open_channel (ClientMessage.send_prompt sid text images) awaiting_reply c
  dispatch (ClientRequest.create_session agent cwd cols rows) c =
      open_channel (ClientMessage.create_session agent cwd cols rows) awaiting_reply c
  dispatch (ClientRequest.terminal_input sid payload) c =
      send (ClientMessage.terminal_input sid payload) c
  dispatch (ClientRequest.terminal_resize sid cols rows) c =
      send (ClientMessage.terminal_resize sid cols rows) c
  dispatch (ClientRequest.list_directory path) c = c

  -- the end of a stream of pushed texts
  abbrev pub end_stream : Option (ClientMessage V) → Conn V → Conn V
  end_stream none c = enter done c
  end_stream (some m) c = enter done (send m c)

  -- the end of the loop of a wrapper
  abbrev pub end_wrapper : String → Conn V → Conn V
  end_wrapper sid c = enter done (send (ClientMessage.unregister_wrapper sid) c)

  -- a request on the connection of a wrapper; most are ignored
  unfoldable pub dispatch_wrapper : String → ClientRequest V → Conn V → Conn V
  dispatch_wrapper sid (ClientRequest.unregister_wrapper _) c = end_wrapper sid c
  dispatch_wrapper sid (ClientRequest.update_suggestion id suggestion) c =
      send (ClientMessage.update_suggestion id suggestion) c
  dispatch_wrapper sid (ClientRequest.update_thinking_text id thinking_text) c =
      send (ClientMessage.update_thinking_text id thinking_text) c
  dispatch_wrapper sid _ c = c

  module _ (codec : Codec V) where
    -- the request of a line, if it is one
    abbrev pub request_of : String → Option (ClientRequest V)
    request_of text = if trim text == "" then none else codec.read_request (trim text)

    abbrev pub on_line : (ClientRequest V → Conn V → Conn V) → String → Conn V → Conn V
    on_line handle text c = elim (request_of text) [ none ↦ c | some req ↦ handle req c ]

    abbrev pub write_line : Option String → Conn V → Conn V
    write_line none c = c
    write_line (some text) c = write (text ++ "\n") c

    -- `none`: in this mode the code does not wait for such an input
    unfoldable pub step : Input V → Mode V → Conn V → Option (Conn V)
    step (line text) reading c = some (on_line dispatch text c)
    step eof reading c = some (enter done c)
    step (reply none) awaiting_reply c = some (enter reading c)
    step (reply (some text)) awaiting_reply c = some (enter reading (write text c))
    step (decision none) awaiting_decision c = some (enter reading c)
    step (decision (some d)) awaiting_decision c =
        some (enter reading (write_line (codec.decision_json d) c))
    step (pushed text is_written) (streaming farewell) c =
        some (if is_written then write text c else end_stream farewell c)
    step hung_up (streaming farewell) c = some (end_stream farewell c)
    step (line text) (wrapping sid) c = some (on_line (dispatch_wrapper sid) text c)
    step eof (wrapping sid) c = some (end_wrapper sid c)
    step (event e is_written) (wrapping sid) c = some (elim (codec.event_json e) [
      | none ↦ c
      | some text ↦ if is_written then write (text ++ "\n") c else end_wrapper sid c
    ])
    step hung_up (wrapping sid) c = some (end_wrapper sid c)
    step _ _ c = none

    unfoldable pub run : List (Input V) → Conn V → Option (Conn V)
    run [] c = some c
    run (i ∷ inputs) c = step i c.mode c >>= run inputs
