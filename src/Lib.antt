-- ===== src/Lib.antt =====
-- agent-dash: a daemon that tracks the sessions of coding agents by hooks, shows them to clients, and
-- passes permission requests to them; and a relay that forwards its encrypted messages.
--
-- Parts. Hook processes send events and permission requests to the daemon, wrappers register with it,
-- and clients subscribe, answer requests, send prompts and watch transcripts and terminals. One loop
-- takes these messages in turn: it keeps the sessions and requests in a `DaemonState`, the senders it
-- may answer in tables of its own, and broadcasts what changes. The relay holds channels of peers,
-- forwards what one peer sends to the others, and buffers it for those who come back; a connector
-- encrypts and decrypts between a daemon and the relay.
--
-- Files.
--   Table: std's HashMap with string keys, an association list; its order stands for the iteration
--     order, which Rust leaves open. Table/Laws has its laws, Table/Reordered the
--     tables that differ in this order alone, Table/HashMap the quotient by it.
--   Session: crates/agent-dash-core/src/session.rs. Paths: crates/agent-dash-core/src/paths.rs.
--   Protocol: crates/agent-dash-core/src/protocol.rs, the events and records. `serde_json::Value` is
--     a type parameter, since the daemon hands such values on unread.
--   State: crates/agent-dash/src/state.rs, one function for each method of `DaemonState`. State/Effects
--     has their equations on one session, State/Hooks the state machine of the hook events,
--     State/Permissions the permission requests, State/Wrappers the end of a wrapper,
--     State/Invariant the well-formedness of the tables, State/View what clients are shown.
--   Watcher: crates/agent-dash/src/watcher.rs, the two maps of `SessionWatcher`.
--   Daemon: crates/agent-dash/src/daemon.rs. The record `Daemon` holds the variables of `run`, `Env`
--     what one turn of the loop reads of the world. Daemon/Hook, Daemon/Requests, Daemon/Wrappers,
--     Daemon/Transcripts and Daemon/Terminals have one function for each arm of the loop,
--     Daemon/Disk the pictures and the search for a journal, Daemon/Resolve the lookup of truncated
--     ids, and Daemon/Loop the messages, with `ClientMessage` of
--     crates/agent-dash/src/client_listener.rs, and the loop over a list of turns. Daemon/Calm is about
--     what an arm leaves alone, Daemon/Decisions about who is told what on a permission request.
--   Relay: crates/agent-dash-core/src/relay.rs. Relay/Channel: crates/agent-dash-relay/src/channel.rs,
--     one function for each command, the eviction, and the loop of `run` over a list of commands and
--     ticks. Its children hold the ring buffer, the invariant, who is connected, `Sync`, and eviction.
--   Relay/Server: crates/agent-dash-relay/src/server.rs, a connection as a state machine over what it
--     receives; its children are about the token check, the balance of joins, and other channels.
--   Messages: crates/agent-dash/src/messages.rs, escaping and truncation. Messages/Blocks reads lines
--     and blocks, Messages/Files the transcript files, Messages/Markdown and Messages/Html render the
--     blocks, Messages/Strings has the methods of `str` they use, Messages/Json what is asked of a
--     `serde_json::Value`.
--   HookCmd: crates/agent-dash/src/hook_cmd.rs, what is sent for an input and printed for an answer;
--     HookCmd/Faithful is about its sessions and decisions.
--   Jsonl: crates/agent-dash/src/jsonl.rs, the status of a session's journal; Jsonl/Described says it
--     without the loop.
--   Protocol/Requests: `ClientRequest` of crates/agent-dash-core/src/protocol.rs.
--   Listener: crates/agent-dash/src/client_listener.rs, a connection to the daemon as a state machine:
--     each line it reads becomes a message to the loop of Daemon. Listener/Tidy is about how it ends,
--     Listener/Skipped about lines that are no requests, Listener/Composed and Listener/Left about
--     what the daemon does with the messages of a wrapper.
--   Wrapper: crates/agent-dash/src/wrapper.rs, the process that runs an agent in a terminal. One module
--     for the size cell (TermSize), the screen (Screen, Lines), the threads that forward output and
--     updates (Threads), the waiting and connecting (Delays), what `run` tells the daemon (Start), and
--     the threads that set the size (Events). Prelude/Bits has the machine words of the size cell.
--   Connector: crates/agent-dash/src/relay_connector.rs, the bridge between a daemon and the relay.
--     Connector/Sealed is about what it lets the relay see, Connector/Paired about two bridges,
--     Connector/Delays has the delays between two connections.
--   Web: crates/agent-dash/src/web.rs, the connection of the web page as a state machine that sends
--     messages to the loop of Daemon; Web/Tidy is about how it ends.
--   HookListener: crates/agent-dash/src/hook_listener.rs, what a connection hands to the main loop;
--     HookListener/Shown follows a hook from its process to the state of the daemon.
--   Cli: crates/agent-dash/src/cli.rs and the arms of crates/agent-dash/src/main.rs that call it;
--     Cli/Verdicts follows a decision of the user through the daemon to the agent.
--   Setup: crates/agent-dash/src/setup.rs, the hooks merged into the settings of an agent;
--     Setup/Entries is about one event, Setup/Merged and Setup/Stable about all.
--
-- Conventions. The clock is an argument of each call, read once. A sender of a tokio channel is a
-- number; whether a `try_send` succeeds is read from the environment, by the number of the attempt,
-- and what is sent is recorded in a list, newest first. u32 and u64 counters wrap as in a release
-- build. `serde_json`, base64, comrak, the terminal parser and the file system are parameters; where a
-- theorem needs a law of one it is a hypothesis. `sort_by` is a stable insertion sort. Two definitions
-- take fuel: the cutting of output into batches, where the number of chunks is enough, and a number in
-- decimal notation, where its successor is. Every other loop of the modelled code runs over a
-- collection, and the outer loops run over a list of what they receive.
--
-- Not modelled: binding and accepting on sockets, raw mode, the threads of the wrapper that only copy
-- bytes, and the wait for its child, which are input and output only; the router of web.rs; the keys
-- and the configuration file of relay_connector.rs; agents/ and the rest of main.rs
-- of crates/agent-dash/src, which start the other parts and print. The program under
-- src/, which the workspace does not build, the Android app, the GNOME extension and the web page are
-- left out.
pub mod Prelude
pub mod Table
pub mod Session
pub mod Paths
pub mod Protocol
pub mod State
pub mod Relay
pub mod Watcher
pub mod Daemon
pub mod Messages
pub mod HookCmd
pub mod Jsonl
pub mod Listener
pub mod Wrapper
pub mod Web
pub mod HookListener
pub mod Cli
pub mod Connector
pub mod Setup
