-- ===== src/Web.antt =====
-- crates/agent-dash/src/web.rs: one connection of the web page, as a state machine over what it
-- receives. Serde, the sockets and the file system are parameters. What is sent to the page goes
-- through one channel, and a channel for a reply is a number.
pub mod Tidy
mod Tests
use Prim.Native.Nat.{gt}
use agent_dash.Prelude.{
  ℕ, ◌+◌, String, Bool, true, false, Option, none, some, List, [], ◌∷◌, ◌==◌, ◌&&◌, not,
  if◌then◌else◌, unwrap_or, map, filter, take,
}
use Prim.Native.String.{◌++◌, compare}
use package.text.Mathlib.Text.{starts_with}
use agent_dash.Protocol.{ServerEvent, directory_listing, error}
use agent_dash.Protocol.Requests.{ClientRequest}
use agent_dash.Daemon.Loop.{ClientMessage}
use agent_dash.Listener.{Codec, limit_or_default}

-- what is received: a text, with the reply of the main loop if it asks for one; or another message
pub data Input : Type 0 where
  message : (json : String) (reply : Option String) → Input
  other : Input

pub record Page (V : Type 0) : Type 0 where
  pub watched_session : Option String
  pub watched_terminal : Option String
  pub next_channel : ℕ
  pub sent : List (ClientMessage V)
  pub events : List String

-- the directories that `ListDirectory` reads: names, with whether they are directories
pub record Disk : Type 0 where
  pub home_dir : Option String
  pub read_dir : String → Option (List (String × Bool))
  pub read_error : String

abbrev pub insert_name : String → List String → List String
insert_name name [] = name ∷ []
insert_name name (n ∷ names) = elim (compare name n) [
  | gt ↦ n ∷ insert_name name names
  | _ ↦ name ∷ n ∷ names
]

abbrev pub sort_names : List String → List String
sort_names [] = []
sort_names (name ∷ names) = insert_name name (sort_names names)

abbrev pub visible_dirs : List (String × Bool) → List String
visible_dirs entries = take 200 (
    sort_names (
      filter (λ name. not (starts_with name "."))
        (map (λ (e : String × Bool). e.0) (filter (λ (e : String × Bool). e.1) entries))))

abbrev pub directory_of : Disk → Option String → String
directory_of disk none = unwrap_or disk.home_dir "/"
directory_of disk (some p) = if p == "" then unwrap_or disk.home_dir "/" else p

abbrev pub html_or_default : Option String → String
html_or_default format = unwrap_or format "html"

-- the events when a text may have been made
abbrev pub heard : Option String → List String → List String
heard none events = events
heard (some json) events = json ∷ events

-- what is still watched when a session is not
abbrev pub forget : String → Option String → Option String
forget sid none = none
forget sid (some watched) = if watched == sid then none else some watched

module _ {V : Type 0} where
  -- the page when it has subscribed; channel 0 is the one of its events
  abbrev pub connected : Page V
  connected = record {
    watched_session = none;
    watched_terminal = none;
    next_channel = 1;
    sent = ClientMessage.subscribe 0 ∷ [];
    events = [];
  }

  abbrev pub send : ClientMessage V → Page V → Page V
  send m p = record p { sent = m ∷ p.sent }

  -- sends a message with a new channel, and hands on what is replied
  abbrev pub ask : (ℕ → ClientMessage V) → Option String → Page V → Page V
  ask m reply p = record p {
    next_channel = p.next_channel + 1;
    sent = m p.next_channel ∷ p.sent;
    events = heard reply p.events;
  }

  -- the messages with a farewell to what is watched
  abbrev pub farewell :
      (String → ClientMessage V) → Option String → List (ClientMessage V) → List (ClientMessage V)
  farewell m none sent = sent
  farewell m (some sid) sent = m sid ∷ sent

  module _ (codec : Codec V) (disk : Disk) where
    abbrev pub listing : Option String → ServerEvent V
    listing path = elim (disk.read_dir (directory_of disk path)) [
      | none ↦ error ("list_directory: " ++ disk.read_error)
      | some entries ↦ directory_listing (directory_of disk path) (visible_dirs entries)
    ]

    -- the `match req`
    unfoldable pub dispatch : ClientRequest V → Option String → Page V → Page V
    dispatch (ClientRequest.get_state include_subagents) reply p =
        ask (ClientMessage.get_state include_subagents) reply p
    dispatch (ClientRequest.get_messages sid format limit) reply p =
        ask (ClientMessage.get_messages sid (html_or_default format) (limit_or_default limit)) reply
          p
    dispatch (ClientRequest.watch_session sid format) reply p = record p {
      watched_session = some sid;
      sent =
          ClientMessage.watch_session sid (html_or_default format) 0
          ∷ farewell ClientMessage.unwatch_session p.watched_session p.sent;
    }
    dispatch (ClientRequest.unwatch_session sid) reply p =
        send (ClientMessage.unwatch_session sid)
          (record p { watched_session = forget sid p.watched_session })
    dispatch (ClientRequest.send_prompt sid text images) reply p =
        ask (ClientMessage.send_prompt sid text images) reply p
    dispatch (ClientRequest.permission_response rid sid answer suggestion) reply p =
        send (ClientMessage.permission_response rid sid answer suggestion) p
    dispatch (ClientRequest.list_sessions project) reply p =
        ask (ClientMessage.list_sessions project) reply p
    dispatch (ClientRequest.watch_terminal sid) reply p = record p {
      watched_terminal = some sid;
      sent =
          ClientMessage.watch_terminal sid 0
          ∷ farewell ClientMessage.unwatch_terminal p.watched_terminal p.sent;
    }
    dispatch (ClientRequest.unwatch_terminal sid) reply p =
        send (ClientMessage.unwatch_terminal sid)
          (record p { watched_terminal = forget sid p.watched_terminal })
    dispatch (ClientRequest.create_session agent cwd cols rows) reply p =
        ask (ClientMessage.create_session agent cwd cols rows) reply p
    dispatch (ClientRequest.terminal_input sid payload) reply p =
        send (ClientMessage.terminal_input sid payload) p
    dispatch (ClientRequest.terminal_resize sid cols rows) reply p =
        send (ClientMessage.terminal_resize sid cols rows) p
    dispatch (ClientRequest.list_directory path) reply p = record p {
      events = heard (codec.event_json (listing path)) p.events;
    }
    dispatch _ reply p = p

    -- one round of the loop
    unfoldable pub step : Input → Page V → Page V
    step (message json reply) p = elim (codec.read_request json) [
      | none ↦ p
      | some req ↦ dispatch req reply p
    ]
    step other p = p

    -- what is done when the connection has ended
    unfoldable pub clean_up : Page V → Page V
    clean_up p = record p {
      sent =
          farewell ClientMessage.unwatch_terminal p.watched_terminal
            (farewell ClientMessage.unwatch_session p.watched_session p.sent);
    }

    unfoldable pub run_from : List Input → Page V → Page V
    run_from [] p = clean_up p
    run_from (i ∷ inputs) p = run_from inputs (step i p)

    abbrev pub handle_ws : List Input → Page V
    handle_ws inputs = run_from inputs connected
