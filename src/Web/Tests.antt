-- ===== src/Web/Tests.antt =====
-- The connection of a page that watches two sessions and a terminal, and the theorem at it.
use agent_dash.Prelude.{ℕ, true, false, none, some, List, [], ◌∷◌, ◌==◌, ◌≡◌, refl, if◌then◌else◌}
use agent_dash.Protocol.Requests.{ClientRequest}
use agent_dash.Daemon.Loop.{ClientMessage}
use agent_dash.Listener.{Codec}
use agent_dash.Listener.Tidy.{IsTidied}
use agent_dash.Web.{
  Input, message, other, Disk, handle_ws, run_from, step, dispatch, clean_up, visible_dirs,
}
use agent_dash.Web.Tidy.{handle_ws-IsTidied}

abbrev codec : Codec ℕ
codec = record {
  read_request = λ s.
      if s == "a"
      then some (ClientRequest.watch_session "a" none)
      else if s == "b"
      then some (ClientRequest.watch_session "b" (some "markdown"))
      else if s == "t"
      then some (ClientRequest.watch_terminal "t")
      else none;
  event_json = λ e. none;
  decision_json = λ d. none;
}

abbrev disk : Disk
disk = record {
  home_dir = some "/home/me";
  read_dir = λ path. some (("src", true) ∷ (".git", true) ∷ ("README", false) ∷ ("doc", true) ∷ []);
  read_error = "denied";
}

abbrev inputs : List Input
inputs = message "a" none ∷ other ∷ message "b" none ∷ message "t" none ∷ message "?" none ∷ []

messages :
    (handle_ws codec disk inputs).sent
    ≡ ClientMessage.unwatch_terminal "t"
      ∷ ClientMessage.unwatch_session "b"
      ∷ ClientMessage.watch_terminal "t" 0
      ∷ ClientMessage.watch_session "b" "markdown" 0
      ∷ ClientMessage.unwatch_session "a"
      ∷ ClientMessage.watch_session "a" "html" 0
      ∷ ClientMessage.subscribe 0
      ∷ []
unfolding run_from step dispatch clean_up
messages = refl

listed :
    visible_dirs (("src", true) ∷ (".git", true) ∷ ("README", false) ∷ ("doc", true) ∷ [])
    ≡ "doc" ∷ "src" ∷ []
listed = refl

handle_ws-IsTidied_example : IsTidied [] (handle_ws codec disk inputs).sent
handle_ws-IsTidied_example = handle_ws-IsTidied codec disk inputs
