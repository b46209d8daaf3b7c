-- ===== src/Daemon/Terminals.antt =====
-- crates/agent-dash/src/daemon.rs: the handlers of terminals.
use agent_dash.Prelude.{
  ℕ, String, Option, none, some, List, [], ◌∷◌, ◌++◌, if◌then◌else◌, unwrap_or, is_empty,
  map_option,
}
use Prim.Native.String.{◌++◌ as ◌<>◌}
use agent_dash.Table.{lookup, insert, remove}
use agent_dash.Protocol.{
  ServerEvent, terminal_data, terminal_write, terminal_resize, force_redraw, session_created, error,
}
use agent_dash.State.{parent_of}
use agent_dash.Messages.Strings.{show}
use agent_dash.Daemon.{
  Daemon, Env, event, replied, encode_line, or_default, emit, attempt, send_line, try_each,
}
use agent_dash.Daemon.Resolve.{find_wrapper_tx}
use agent_dash.Daemon.Transcripts.{canonical, push_to}

module _ {V P : Type 0} (env : Env V P) where
  -- an event for the wrapper of a session, if there is one
  unfoldable pub send_wrapper : String → ServerEvent V → Daemon V P → Daemon V P
  send_wrapper sid e d = elim (find_wrapper_tx sid d.wrapper_channels) [
    | none ↦ d
    | some tx ↦ attempt env (event tx e) d
  ]

  -- the screen as it is, for a terminal that joins late
  unfoldable pub send_snapshot : String → ℕ → Daemon V P → Daemon V P
  send_snapshot sid tx d = elim (lookup sid d.terminal_parsers) [
    | none ↦ d
    | some parser ↦ elim (env.snapshot parser) [
      | none ↦ d
      | some b64 ↦ send_line env tx (terminal_data sid b64) d
    ]
  ]

  -- `WatchTerminal`
  unfoldable pub handle_watch_terminal : String → ℕ → Daemon V P → Daemon V P
  handle_watch_terminal sid tx d =
      let key = canonical sid d.state in
      let d₁ = send_snapshot key tx d in
      send_wrapper key force_redraw
        (record d₁ { terminal_subscribers = push_to key tx d₁.terminal_subscribers })

  -- feeds the output to the parser of the session, a new one if it has none
  unfoldable pub feed_parser : (sid payload : String) → Daemon V P → Daemon V P
  feed_parser sid payload d = elim (env.decode payload) [
    | none ↦ d
    | some bytes ↦
        let parser = unwrap_or (lookup sid d.terminal_parsers) env.new_parser in
        record d { terminal_parsers = insert sid (env.process bytes parser) d.terminal_parsers }
  ]

  -- the subscribers of one target that are left, back in the table
  abbrev pub keep_subscribers : String → List ℕ × Daemon V P → Daemon V P
  keep_subscribers target (kept, d) = record d {
    terminal_subscribers =
        if is_empty kept
        then remove target d.terminal_subscribers
        else insert target kept d.terminal_subscribers;
  }

  -- one round of the loop over the targets
  unfoldable pub forward_to : (payload target : String) → Daemon V P → Daemon V P
  forward_to payload target d = elim (lookup target d.terminal_subscribers) [
    | none ↦ d
    | some subs ↦ elim (encode_line env.to_string (terminal_data target payload)) [
      | none ↦ keep_subscribers target (subs, d)
      | some text ↦ keep_subscribers target (try_each env text subs d)
    ]
  ]

  abbrev pub forward_to_owner : String → Option String → Daemon V P → Daemon V P
  forward_to_owner payload none d = d
  forward_to_owner payload (some wid) d = forward_to payload wid d

  -- `TerminalOutput`: to the watchers of the session, then to those of its wrapper
  unfoldable pub handle_terminal_output : (sid payload : String) → Daemon V P → Daemon V P
  handle_terminal_output sid payload d =
      let d₁ = feed_parser sid payload d in
      forward_to_owner payload (parent_of sid d.state) (forward_to payload sid d₁)

  -- `TerminalInput`
  abbrev pub handle_terminal_input : (sid payload : String) → Daemon V P → Daemon V P
  handle_terminal_input sid payload d = send_wrapper sid (terminal_write payload) d

  -- `TerminalResize`
  abbrev pub handle_terminal_resize : String → (cols rows : ℕ) → Daemon V P → Daemon V P
  handle_terminal_resize sid cols rows d = send_wrapper sid (terminal_resize cols rows) d

  -- the answer to `CreateSession`, by what spawning the process has come to
  abbrev pub created : Option String → ServerEvent V
  created none = session_created env.new_session_id
  created (some e) = error ("failed to spawn session: " <> e)

  -- an option of the command line
  abbrev pub arg : String → Option String → List String
  arg name none = []
  arg name (some value) = name ∷ value ∷ []

  -- the arguments of the process that runs the session
  unfoldable pub spawn_args : Option String → Option String → Option ℕ → Option ℕ → List String
  spawn_args agent cwd cols rows =
      ("run"
        ∷ unwrap_or agent "claude"
        ∷ "--headless"
        ∷ arg "--session-id" (some env.new_session_id))
      ++ (arg "--cwd" cwd
          ++ (arg "--cols" (map_option show cols) ++ arg "--rows" (map_option show rows)))

  -- `CreateSession`
  unfoldable pub handle_create_session :
      Option String → Option String → Option ℕ → Option ℕ → ℕ → Daemon V P → Daemon V P
  handle_create_session agent cwd cols rows reply d =
      let response = created (env.spawn (spawn_args agent cwd cols rows)) in
      emit (replied reply (or_default (encode_line env.to_string response))) d

module _ {V P : Type 0} where
  -- `UnwatchTerminal`
  unfoldable pub handle_unwatch_terminal : String → Daemon V P → Daemon V P
  handle_unwatch_terminal sid d = record d {
    terminal_subscribers = remove (canonical sid d.state) d.terminal_subscribers;
  }
