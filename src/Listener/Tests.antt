-- ===== src/Listener/Tests.antt =====
-- Connections of a wrapper and of a client that watches a session, and the theorems at them.
use agent_dash.Prelude.{
  ℕ, true, false, ◌≡◌, ◌⊎◌, ◌==◌, refl, none, some, List, [], ◌∷◌, All, filter, if◌then◌else◌,
}
use agent_dash.Table.{lookup}
use agent_dash.Messages.Strings.{trim_start, trim_end}
use agent_dash.Protocol.{force_redraw}
use agent_dash.Protocol.Requests.{ClientRequest}
use agent_dash.State.{session_at}
use agent_dash.Daemon.Loop as Loop
use agent_dash.Daemon.Loop.{ClientMessage, new}
use agent_dash.Daemon.Tests.{env}
use agent_dash.Listener.{
  Codec, Conn, Input, line, eof, pushed, event, start, wrapping, done, step, run, dispatch,
  dispatch_wrapper,
}
use agent_dash.Listener.Tidy.{IsTidied, run-IsTidied}
use agent_dash.Listener.Skipped.{is_meant, run-is_meant}
use agent_dash.Listener.Composed.{registration, IsOfWrapper, IsUnregistered, wrapper_messages}
use agent_dash.Listener.Left.{turns_of, wrapper_gone}

abbrev codec : Codec ℕ
codec = record {
  read_request = λ s.
      if s == "register"
      then some (ClientRequest.register_wrapper "w" "claude" none none none none)
      else if s == "output"
      then some (ClientRequest.terminal_output "w" "aGk=")
      else if s == "watch"
      then some (ClientRequest.watch_session "s" none)
      else if s == "suggest"
      then some (ClientRequest.update_suggestion "w" (some "ls"))
      else none;
  event_json = λ e. some "{}";
  decision_json = λ d. some "{}";
}

abbrev wrapper_inputs : List (Input ℕ)
wrapper_inputs = line "output" ∷ event force_redraw true ∷ line "suggest" ∷ line "?" ∷ eof ∷ []

abbrev wrapper_end : Conn ℕ
wrapper_end = record {
  mode = done;
  next_channel = 1;
  sent =
      ClientMessage.unregister_wrapper "w"
      ∷ ClientMessage.update_suggestion "w" (some "ls")
      ∷ ClientMessage.register_wrapper (registration codec "w" "claude" none none none none)
      ∷ [];
  written = "{}\n" ∷ [];
}

wrapper_runs : run codec (line "register" ∷ wrapper_inputs) start ≡ some wrapper_end
unfolding run step dispatch dispatch_wrapper trim_start trim_end
wrapper_runs = refl

-- the main loop pushes two texts, and the client is gone at the second
abbrev watch_end : Conn ℕ
watch_end = record {
  mode = done;
  next_channel = 1;
  sent = ClientMessage.unwatch_session "s" ∷ ClientMessage.watch_session "s" "structured" 0 ∷ [];
  written = "a" ∷ [];
}

abbrev watch_inputs : List (Input ℕ)
watch_inputs = line " " ∷ line "watch" ∷ pushed "a" true ∷ pushed "b" false ∷ []

watch_runs : run codec watch_inputs start ≡ some watch_end
unfolding run step dispatch trim_start trim_end
watch_runs = refl

run-IsTidied_example : IsTidied [] watch_end.sent
run-IsTidied_example = run-IsTidied codec watch_inputs watch_end watch_runs refl

run-is_meant_example : run codec (filter (is_meant codec) watch_inputs) start ≡ some watch_end
run-is_meant_example = run-is_meant codec watch_inputs start watch_end watch_runs

wrapper_messages_example :
    All (IsOfWrapper (registration codec "w" "claude" none none none none)) wrapper_end.sent
    × ((wrapper_end.mode ≡ wrapping "w")
        ⊎ ((wrapper_end.mode ≡ done) × IsUnregistered "w" wrapper_end.sent))
unfolding trim_start trim_end
wrapper_messages_example =
    wrapper_messages codec "register" "w" "claude" none none none none wrapper_inputs wrapper_end
      refl wrapper_runs

wrapper_gone_example :
    (lookup "w" (Loop.run (turns_of env wrapper_end.sent) new).wrapper_channels ≡ none)
    × (session_at "w" (Loop.run (turns_of env wrapper_end.sent) new).state ≡ none)
unfolding trim_start trim_end
wrapper_gone_example =
    wrapper_gone codec env "register" "w" "claude" none none none none wrapper_inputs wrapper_end []
      refl wrapper_runs refl
