-- ===== src/Daemon/Calm/Reading.antt =====
-- The handlers of subscriptions, transcripts and terminals leave the permission requests alone.
use agent_dash.Prelude.{
  ℕ, String, Bool, refl, Option, none, some, List, [], ◌∷◌, Option-cases, Bool-cases, both_branches,
  inl, inr, is_empty, and_then, unwrap_or, if◌then◌else◌,
}
use agent_dash.Table.{Table, lookup, values}
use agent_dash.Protocol.{
  ServerEvent, state_update, message, ChatMessage, terminal_data, force_redraw,
}
use agent_dash.Messages.Files.{read_new_messages}
use agent_dash.State.{PendingPermission, session_at, parent_of}
use agent_dash.State.View.{to_dash_sessions, to_all_dash_sessions}
use agent_dash.Daemon.{Daemon, Env, line, encode_line, attempt, write_tick}
use agent_dash.Daemon.Resolve.{find_wrapper_tx}
use agent_dash.Daemon.Requests.{pending_event, send_pending, handle_subscribe, handle_get_state}
use agent_dash.Daemon.Transcripts.{
  set_offset, canonical, handle_list_sessions, handle_get_messages, watch_transcript,
  handle_watch_session, send_to_all, send_messages, each_format, send_changes, group_formats,
  handle_file_changed, handle_unwatch_session, open_only,
}
use agent_dash.Daemon.Terminals.{
  send_wrapper, send_snapshot, handle_watch_terminal, feed_parser, forward_to, forward_to_owner,
  handle_terminal_output, handle_create_session, handle_unwatch_terminal,
}
use agent_dash.Daemon.Calm.{
  IsCalm, IsQuiet, decisions, IsQuiet-refl, IsQuiet-trans, IsCalm-refl, IsCalm-trans,
  IsCalm-of_quiet, IsCalm-of_session, send_line-IsQuiet, try_each-IsQuiet,
}

module _ {V P : Type 0} (env : Env V P) where
  send_pending-IsQuiet :
      (tx : ℕ) (ps : List (PendingPermission V)) (d : Daemon V P)
      → IsQuiet d (send_pending env tx ps d)
  unfolding send_pending
  send_pending-IsQuiet tx [] d = IsQuiet-refl d
  send_pending-IsQuiet tx (p ∷ ps) d =
      IsQuiet-trans (send_line-IsQuiet env tx (pending_event p d.state) d)
        (send_pending-IsQuiet tx ps _)

  pub subscribe-IsQuiet : (tx : ℕ) (d : Daemon V P) → IsQuiet d (handle_subscribe env tx d)
  unfolding handle_subscribe
  subscribe-IsQuiet tx d =
      IsQuiet-trans (send_line-IsQuiet env tx (state_update (to_dash_sessions d.state)) d) (
        IsQuiet-trans (send_pending-IsQuiet tx (values d.state.pending_permissions) _)
          (record { state = refl; waiters = refl; decided = refl }))

  pub get_state-IsQuiet :
      (all : Bool) (reply : ℕ) (d : Daemon V P) → IsQuiet d (handle_get_state env all reply d)
  unfolding handle_get_state decisions
  get_state-IsQuiet all reply d =
      let sessions = if all then to_all_dash_sessions d.state else to_dash_sessions d.state in
      elim (Option-cases (encode_line env.to_string (state_update sessions))) [
        | inl failed ↦ rw (failed, handle_get_state) (IsQuiet-refl d)
        | inr (text, made) ↦
            rw (made, handle_get_state) (record { state = refl; waiters = refl; decided = refl })
      ]

  pub list_sessions-IsQuiet :
      (project : String) (reply : ℕ) (d : Daemon V P)
      → IsQuiet d (handle_list_sessions env project reply d)
  unfolding handle_list_sessions decisions
  list_sessions-IsQuiet project reply d = record { state = refl; waiters = refl; decided = refl }

  pub get_messages-IsQuiet :
      (sid format : String) (limit reply : ℕ) (d : Daemon V P)
      → IsQuiet d (handle_get_messages env sid format limit reply d)
  unfolding handle_get_messages decisions
  get_messages-IsQuiet sid format limit reply d = record {
    state = refl;
    waiters = refl;
    decided = refl;
  }

  watch_transcript-IsCalm : (sid : String) (d : Daemon V P) → IsCalm d (watch_transcript env sid d)
  unfolding watch_transcript
  watch_transcript-IsCalm sid d =
      elim (Option-cases (and_then (session_at sid d.state) (λ s. s.jsonl_path))) [
        | inl lacks ↦ rw (lacks, watch_transcript) (IsCalm-refl d)
        | inr (path, has) ↦
            rw (has, watch_transcript)
              (IsCalm-trans
                (IsCalm-of_session sid (set_offset (some (unwrap_or (env.files.file_len path) 0))) d
                  (λ s. refl))
                (IsCalm-of_quiet (record { state = refl; waiters = refl; decided = refl })))
      ]

  pub watch_session-IsCalm :
      (sid format : String) (tx : ℕ) (d : Daemon V P)
      → IsCalm d (handle_watch_session env sid format tx d)
  unfolding handle_watch_session
  watch_session-IsCalm sid format tx d =
      IsCalm-trans (watch_transcript-IsCalm (canonical sid d.state) d)
        (IsCalm-of_quiet (record { state = refl; waiters = refl; decided = refl }))

  send_to_all-IsQuiet :
      (text : String) (txs : List ℕ) (d : Daemon V P) → IsQuiet d (send_to_all env text txs d)
  unfolding send_to_all decisions
  send_to_all-IsQuiet text [] d = IsQuiet-refl d
  send_to_all-IsQuiet text (tx ∷ txs) d =
      IsQuiet-trans {b = attempt env (line tx text) d}
        (record { state = refl; waiters = refl; decided = refl }) (send_to_all-IsQuiet text txs _)

  send_messages-IsQuiet :
      (sid : String) (txs : List ℕ) (ms : List (ChatMessage V)) (d : Daemon V P)
      → IsQuiet d (send_messages env sid txs ms d)
  unfolding send_messages
  send_messages-IsQuiet sid txs [] d = IsQuiet-refl d
  send_messages-IsQuiet sid txs (m ∷ ms) d =
      elim (Option-cases (encode_line env.to_string (message sid m))) [
        | inl failed ↦ rw (failed, send_messages) (send_messages-IsQuiet sid txs ms d)
        | inr (text, made) ↦
            rw (made, send_messages)
              (IsQuiet-trans (send_to_all-IsQuiet text txs d) (send_messages-IsQuiet sid txs ms _))
      ]

  each_format-IsCalm :
      (sid path : String) (offset : ℕ) (groups : Table (List ℕ)) (d : Daemon V P)
      → IsCalm d (each_format env sid path offset groups d)
  unfolding each_format
  each_format-IsCalm sid path offset [] d = IsCalm-refl d
  each_format-IsCalm sid path offset ((fmt, txs) ∷ groups) d =
      let read = read_new_messages env.json env.markdown_to_html env.files path offset fmt in
      IsCalm-trans (IsCalm-of_session sid (set_offset (some read.1)) d (λ s. refl)) (
        IsCalm-trans (IsCalm-of_quiet (send_messages-IsQuiet sid txs read.0 _))
          (each_format-IsCalm sid path offset groups _))

  send_changes-IsCalm :
      (sid path : String) (subs : List (String × ℕ)) (d : Daemon V P)
      → IsCalm d (send_changes env sid path subs d)
  unfolding send_changes
  send_changes-IsCalm sid path subs d = each_format-IsCalm sid path _ (group_formats [] subs) d

  tidy-IsCalm :
      (d d' : Daemon V P)
      → IsCalm d d'
      → IsCalm d (record d' { message_subscribers = open_only env d'.message_subscribers })
  tidy-IsCalm d d' calm =
      IsCalm-trans calm (IsCalm-of_quiet (record { state = refl; waiters = refl; decided = refl }))

  pub file_changed-IsCalm :
      (sid path : String) (d : Daemon V P) → IsCalm d (handle_file_changed env sid path d)
  unfolding handle_file_changed
  file_changed-IsCalm sid path d = elim (Option-cases (lookup sid d.message_subscribers)) [
    | inl unknown ↦ rw (unknown, handle_file_changed) (tidy-IsCalm d d (IsCalm-refl d))
    | inr (subs, known) ↦ elim (Bool-cases (is_empty subs)) [
      | inl nobody ↦ rw (known, handle_file_changed, nobody) (tidy-IsCalm d d (IsCalm-refl d))
      | inr watched ↦
          rw (known, handle_file_changed, watched)
            (tidy-IsCalm d _ (send_changes-IsCalm sid path subs d))
    ]
  ]

  pub send_wrapper-IsQuiet :
      (sid : String) (e : ServerEvent V) (d : Daemon V P) → IsQuiet d (send_wrapper env sid e d)
  unfolding send_wrapper decisions
  send_wrapper-IsQuiet sid e d = elim (Option-cases (find_wrapper_tx sid d.wrapper_channels)) [
    | inl unwrapped ↦ rw (unwrapped, send_wrapper) (IsQuiet-refl d)
    | inr (tx, wrapped) ↦
        rw (wrapped, send_wrapper) (record { state = refl; waiters = refl; decided = refl })
  ]

  send_snapshot-IsQuiet :
      (sid : String) (tx : ℕ) (d : Daemon V P) → IsQuiet d (send_snapshot env sid tx d)
  unfolding send_snapshot
  send_snapshot-IsQuiet sid tx d = elim (Option-cases (lookup sid d.terminal_parsers)) [
    | inl no_parser ↦ rw (no_parser, send_snapshot) (IsQuiet-refl d)
    | inr (parser, there) ↦ elim (Option-cases (env.snapshot parser)) [
      | inl blank ↦ rw (there, send_snapshot, blank) (IsQuiet-refl d)
      | inr (b64, drawn) ↦
          rw (there, send_snapshot, drawn) (send_line-IsQuiet env tx (terminal_data sid b64) d)
    ]
  ]

  pub watch_terminal-IsQuiet :
      (sid : String) (tx : ℕ) (d : Daemon V P) → IsQuiet d (handle_watch_terminal env sid tx d)
  unfolding handle_watch_terminal
  watch_terminal-IsQuiet sid tx d =
      IsQuiet-trans (send_snapshot-IsQuiet (canonical sid d.state) tx d) (
        IsQuiet-trans (record { state = refl; waiters = refl; decided = refl })
          (send_wrapper-IsQuiet (canonical sid d.state) force_redraw _))

  feed_parser-IsQuiet :
      (sid payload : String) (d : Daemon V P) → IsQuiet d (feed_parser env sid payload d)
  unfolding feed_parser
  feed_parser-IsQuiet sid payload d = elim (Option-cases (env.decode payload)) [
    | inl garbled ↦ rw (garbled, feed_parser) (IsQuiet-refl d)
    | inr (bytes, clear) ↦
        rw (clear, feed_parser) (record { state = refl; waiters = refl; decided = refl })
  ]

  forward_to-IsQuiet :
      (payload target : String) (d : Daemon V P) → IsQuiet d (forward_to env payload target d)
  unfolding forward_to
  forward_to-IsQuiet payload target d = elim (Option-cases (lookup target d.terminal_subscribers)) [
    | inl nobody ↦ rw (nobody, forward_to) (IsQuiet-refl d)
    | inr (subs, there) ↦
        elim (Option-cases (encode_line env.to_string (terminal_data target payload))) [
          | inl failed ↦
              rw (there, forward_to, failed)
                (record { state = refl; waiters = refl; decided = refl })
          | inr (text, made) ↦
              rw (there, forward_to, made)
                (IsQuiet-trans (try_each-IsQuiet env text subs d)
                  (record { state = refl; waiters = refl; decided = refl }))
        ]
  ]

  forward_to_owner-IsQuiet :
      (payload : String) (owner : Option String) (d : Daemon V P)
      → IsQuiet d (forward_to_owner env payload owner d)
  forward_to_owner-IsQuiet payload none d = IsQuiet-refl d
  forward_to_owner-IsQuiet payload (some wid) d = forward_to-IsQuiet payload wid d

  pub terminal_output-IsQuiet :
      (sid payload : String) (d : Daemon V P) → IsQuiet d (handle_terminal_output env sid payload d)
  unfolding handle_terminal_output
  terminal_output-IsQuiet sid payload d = IsQuiet-trans (feed_parser-IsQuiet sid payload d) (
      IsQuiet-trans (forward_to-IsQuiet payload sid _)
        (forward_to_owner-IsQuiet payload (parent_of sid d.state) _))

  pub create_session-IsQuiet :
      (agent cwd : Option String) (cols rows : Option ℕ) (reply : ℕ) (d : Daemon V P)
      → IsQuiet d (handle_create_session env agent cwd cols rows reply d)
  unfolding handle_create_session decisions
  create_session-IsQuiet agent cwd cols rows reply d = record {
    state = refl;
    waiters = refl;
    decided = refl;
  }

module _ {V P : Type 0} where
  pub unwatch_session-IsCalm :
      (sid : String) (d : Daemon V P) → IsCalm d (handle_unwatch_session sid d)
  unfolding handle_unwatch_session
  unwatch_session-IsCalm sid d =
      IsCalm-trans (IsCalm-of_session (canonical sid d.state) (set_offset none) d (λ s. refl))
        (IsCalm-of_quiet (record { state = refl; waiters = refl; decided = refl }))

  pub unwatch_terminal-IsQuiet :
      (sid : String) (d : Daemon V P) → IsQuiet d (handle_unwatch_terminal sid d)
  unfolding handle_unwatch_terminal
  unwatch_terminal-IsQuiet sid d = record { state = refl; waiters = refl; decided = refl }

  pub write_tick-IsQuiet : (d : Daemon V P) → IsQuiet d (write_tick d)
  unfolding write_tick decisions
  write_tick-IsQuiet d =
      both_branches (IsQuiet d) d.state_dirty
        (record { state = refl; waiters = refl; decided = refl }) (IsQuiet-refl d)
