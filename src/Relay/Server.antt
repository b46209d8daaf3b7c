-- ===== src/Relay/Server.antt =====
-- crates/agent-dash-relay/src/server.rs: one connection of the relay, as a state machine. An event is
-- what the task of the connection waits for; each step returns the next phase and, in order, what it
-- tells the client and the channel manager. Commands are recorded whether or not the manager still
-- runs, and messages to the client by their value.
pub mod Gate
pub mod Balance
pub mod Foreign
mod Tests
use agent_dash.Prelude.{
  ℕ, String, Bool, true, false, Option, none, some, List, [], ◌∷◌, ◌++◌, ◌==◌, ◌&&◌, if◌then◌else◌,
}
use Prim.Native.Nat.{min}
use Prim.Native.String.{len, ◌++◌ as ◌<>◌}
use package.text.Mathlib.Text.{is_char_boundary}
use agent_dash.Relay.{
  BufferedMessage, RelayMessage, auth, auth_ok, auth_error, encrypted, peer_change, sync,
  sync_response,
}

-- what the WebSocket gives, and how sending to it goes
pub data Frame : Type 0 where
  text : (content : String) → Frame
  close : Frame
  failed : Frame
  ping : (payload : String) → Frame
  other : Frame

pub data Event : Type 0 where
  frame : (frame : Frame) → Event
  ended : Event
  auth_accepted : (peer_count : ℕ) → Event
  auth_rejected : (message : String) → Event
  missed : (messages : List BufferedMessage) → Event
  no_reply : Event
  outgoing : (content : String) (sent : Bool) → Event

-- `serde_json::from_str`: a message, or the text of an error
pub data Parsed : Type 0 where
  parsed : (message : RelayMessage) → Parsed
  malformed : (error : String) → Parsed

pub data Phase : Type 0 where
  waiting : Phase
  asked : (channel_id public_key : String) → Phase
  joined : (channel_id public_key : String) → Phase
  syncing : (channel_id public_key asked_id : String) → Phase
  closed : Phase
  panicked : (channel_id public_key : String) → Phase

pub data Action : Type 0 where
  says : (message : RelayMessage) → Action
  passes : (content : String) → Action
  pong : (payload : String) → Action
  asks_auth : (channel_id public_key : String) → Action
  forwards : (channel_id sender_key content : String) → Action
  asks_sync : (channel_id : String) (since_seq : ℕ) → Action
  disconnects : (channel_id public_key : String) → Action

-- the token check: any token will do if none is required
unfoldable pub admits : Option String → Option String → Bool
admits none provided = true
admits (some expected) none = false
admits (some expected) (some provided) = provided == expected

abbrev pub refuse : String → Phase × List Action
refuse message = (closed, says (auth_error message) ∷ [])

-- the end of a connection that has joined
abbrev pub leave : String → String → Phase × List Action
leave cid key = (closed, disconnects cid key ∷ [])

-- the first message of a client
unfoldable pub first_message : Option String → Parsed → Phase × List Action
first_message required (parsed (auth cid key token)) =
    if admits required token
    then (asked cid key, asks_auth cid key ∷ [])
    else refuse "invalid or missing server token"
first_message required (parsed (auth_ok _)) = refuse "must authenticate first"
first_message required (parsed (auth_error _)) = refuse "must authenticate first"
first_message required (parsed (encrypted _ _ _)) = refuse "must authenticate first"
first_message required (parsed (peer_change _ _)) = refuse "must authenticate first"
first_message required (parsed (sync _ _)) = refuse "must authenticate first"
first_message required (parsed (sync_response _ _)) = refuse "must authenticate first"
first_message required (malformed e) = refuse ("invalid message: " <> e)

-- a message of a client that has joined
unfoldable pub next_message : String → String → String → Parsed → Phase × List Action
next_message cid key content (parsed (encrypted _ _ _)) =
    (joined cid key, forwards cid key content ∷ [])
next_message cid key content (parsed (sync id since)) =
    (syncing cid key id, asks_sync id since ∷ [])
next_message cid key content (parsed (auth _ _ _)) = (joined cid key, [])
next_message cid key content (parsed (auth_ok _)) = (joined cid key, [])
next_message cid key content (parsed (auth_error _)) = (joined cid key, [])
next_message cid key content (parsed (peer_change _ _)) = (joined cid key, [])
next_message cid key content (parsed (sync_response _ _)) = (joined cid key, [])
next_message cid key content (malformed _) = (joined cid key, [])

-- `&channel_id[..8.min(channel_id.len())]` in the log line panics inside a character
abbrev pub can_log : String → Bool
can_log cid = is_char_boundary cid (min 8 (len cid))

module _ (from_str : String → Parsed) (required : Option String) where
  -- An event that the task does not wait for in a phase is left for later.
  unfoldable pub step : Phase → Event → Phase × List Action
  step waiting (frame (text content)) = first_message required (from_str content)
  step waiting (frame close) = (closed, [])
  step waiting (frame failed) = (closed, [])
  step waiting (frame (ping payload)) = (waiting, pong payload ∷ [])
  step waiting (frame other) = (waiting, [])
  step waiting ended = (closed, [])
  step waiting (auth_accepted _) = (waiting, [])
  step waiting (auth_rejected _) = (waiting, [])
  step waiting (missed _) = (waiting, [])
  step waiting no_reply = (waiting, [])
  step waiting (outgoing _ _) = (waiting, [])
  step (asked cid key) (auth_accepted n) =
      ((if can_log cid then joined cid key else panicked cid key), says (auth_ok n) ∷ [])
  step (asked cid key) (auth_rejected message) = refuse message
  step (asked cid key) no_reply = (closed, [])
  step (asked cid key) (frame _) = (asked cid key, [])
  step (asked cid key) ended = (asked cid key, [])
  step (asked cid key) (missed _) = (asked cid key, [])
  step (asked cid key) (outgoing _ _) = (asked cid key, [])
  step (joined cid key) (outgoing content true) = (joined cid key, passes content ∷ [])
  step (joined cid key) (outgoing content false) =
      (closed, passes content ∷ disconnects cid key ∷ [])
  step (joined cid key) ended = leave cid key
  step (joined cid key) (frame (text content)) = next_message cid key content (from_str content)
  step (joined cid key) (frame close) = leave cid key
  step (joined cid key) (frame failed) = leave cid key
  step (joined cid key) (frame (ping payload)) = (joined cid key, pong payload ∷ [])
  step (joined cid key) (frame other) = (joined cid key, [])
  step (joined cid key) (auth_accepted _) = (joined cid key, [])
  step (joined cid key) (auth_rejected _) = (joined cid key, [])
  step (joined cid key) (missed _) = (joined cid key, [])
  step (joined cid key) no_reply = (joined cid key, [])
  step (syncing cid key id) (missed messages) =
      (joined cid key, says (sync_response id messages) ∷ [])
  step (syncing cid key id) no_reply = (joined cid key, [])
  step (syncing cid key id) (frame _) = (syncing cid key id, [])
  step (syncing cid key id) ended = (syncing cid key id, [])
  step (syncing cid key id) (auth_accepted _) = (syncing cid key id, [])
  step (syncing cid key id) (auth_rejected _) = (syncing cid key id, [])
  step (syncing cid key id) (outgoing _ _) = (syncing cid key id, [])
  step closed e = (closed, [])
  step (panicked cid key) e = (panicked cid key, [])

  -- the connection over the events that it receives
  unfoldable pub run : Phase → List Event → Phase × List Action
  run phase [] = (phase, [])
  run phase (e ∷ events) =
      let (next, actions) = step phase e in
      let (last, later) = run next events in (last, actions ++ later)
