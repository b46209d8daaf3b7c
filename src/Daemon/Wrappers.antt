-- ===== src/Daemon/Wrappers.antt =====
-- crates/agent-dash/src/daemon.rs: the handlers of wrappers, and of prompts for them.
pub mod Prompts
use agent_dash.Prelude.{
  ℕ, String, Bool, true, false, Option, none, some, List, [], ◌∷◌, ◌==◌, ◌&&◌, not, if◌then◌else◌,
  and_then, is_some, is_none, is_empty, unwrap_or,
}
use Prim.Native.String.{◌++◌}
use agent_dash.Table.{Table, lookup, insert, remove}
use agent_dash.Session.{working}
use agent_dash.Protocol.{
  ServerEvent, force_redraw, inject_prompt, prompt_sent, error, ImageAttachment,
}
use agent_dash.State.{
  DaemonState, InternalSession, session_at, on_session, ensure_session, set_status, remove_wrapper,
  is_opt_str,
}
use agent_dash.Daemon.{
  Daemon, Env, event, replied, encode_line, or_default, emit, with_state, dirty, attempt, delivered,
  broadcast_state,
}
use agent_dash.Daemon.Disk.{find_jsonl_on_disk, save_images_to_temp}
use agent_dash.Daemon.Hook.{set_path}
use agent_dash.Daemon.Resolve.{resolve_session_key, find_wrapper_tx}

-- the arguments of `RegisterWrapper`
pub record Registration : Type 0 where
  pub session_id : String
  pub agent : String
  pub cwd : Option String
  pub branch : Option String
  pub project_name : Option String
  pub real_session_id : Option String
  pub wrapper_tx : ℕ

-- the assignments to the session of a wrapper that registers
abbrev pub register : Registration → InternalSession → InternalSession
register reg s = record s {
  is_main = true;
  agent = some reg.agent;
  cwd = if is_some reg.cwd then reg.cwd else s.cwd;
  branch = unwrap_or reg.branch s.branch;
  project_name = unwrap_or reg.project_name s.project_name;
}

-- `a != b` on `Option<String>`
abbrev pub differ : Option String → Option String → Bool
differ none none = false
differ none (some b) = true
differ (some a) none = true
differ (some a) (some b) = not (a == b)

unfoldable pub child_ids : String → Table InternalSession → List String
child_ids sid [] = []
child_ids sid ((id, s) ∷ rest) =
    let ids = child_ids sid rest in if is_opt_str s.parent_wrapper_id sid then id ∷ ids else ids

-- the prompt with the names of the images that were saved
unfoldable pub name_images : String → List String → String
name_images text [] = text
name_images text (path ∷ paths) = name_images ((text ++ "\n- ") ++ path) paths

abbrev pub augmented : String → List String → String
augmented text paths =
    name_images (text ++ "\n\nAttached images (use the Read tool to view them):") paths

abbrev pub set_suggestion : Option String → InternalSession → InternalSession
set_suggestion suggestion s = record s { prompt_suggestion = suggestion }

abbrev pub set_thinking : Option String → InternalSession → InternalSession
set_thinking text s = record s { thinking_text = text }

-- the session is known and is a child of a wrapper
unfoldable pub is_subagent : {V : Type 0} → String → DaemonState V → Bool
is_subagent sid st = elim (and_then (resolve_session_key sid st) (λ k. session_at k st)) [
  | none ↦ false
  | some s ↦ not s.is_main && is_some s.parent_wrapper_id
]

module _ {V P : Type 0} where
  -- removes what a session has in the tables of channels and terminals
  abbrev pub drop_channels : String → Daemon V P → Daemon V P
  drop_channels sid d = record d {
    wrapper_channels = remove sid d.wrapper_channels;
    terminal_parsers = remove sid d.terminal_parsers;
    terminal_subscribers = remove sid d.terminal_subscribers;
  }

  unfoldable pub drop_all : List String → Daemon V P → Daemon V P
  drop_all [] d = d
  drop_all (id ∷ ids) d = drop_all ids (drop_channels id d)

module _ {V P : Type 0} (env : Env V P) where
  -- asks a wrapper that has terminal watchers for a redraw
  unfoldable pub redraw_watched : String → Daemon V P → Daemon V P
  redraw_watched sid d = elim (lookup sid d.terminal_subscribers) [
    | none ↦ d
    | some subs ↦ if is_empty subs then d else elim (lookup sid d.wrapper_channels) [
      | none ↦ d
      | some tx ↦ attempt env (event tx force_redraw) d
    ]
  ]

  -- the transcript of the real session, for a wrapper that has none
  unfoldable pub find_path : String → String → DaemonState V → DaemonState V
  find_path sid real_id st = elim (session_at sid st) [
    | none ↦ st
    | some s ↦
        if is_none s.jsonl_path
        then elim (find_jsonl_on_disk env real_id) [
          | none ↦ st
          | some path ↦ on_session sid (set_path path) st
        ]
        else st
  ]

  -- links the real session again to the channel of its wrapper
  unfoldable pub relink : String → Option String → Daemon V P → Daemon V P
  relink sid none d = d
  relink sid (some real_id) d =
      let d₁ : Daemon V P = elim (lookup sid d.wrapper_channels) [
        | none ↦ d
        | some tx ↦ record d { wrapper_channels = insert real_id tx d.wrapper_channels }
      ] in
      with_state (find_path sid real_id) d₁

  -- `RegisterWrapper`
  unfoldable pub handle_register_wrapper : Registration → Daemon V P → Daemon V P
  handle_register_wrapper reg d =
      let d₁ =
        with_state
          (λ st.
            on_session reg.session_id (register reg) (ensure_session env.now reg.session_id st))
          d in
      let d₂ = record d₁ {
        wrapper_channels = insert reg.session_id reg.wrapper_tx d₁.wrapper_channels;
      } in
      broadcast_state env
        (dirty (relink reg.session_id reg.real_session_id (redraw_watched reg.session_id d₂)))

  -- `UnregisterWrapper`
  unfoldable pub handle_unregister_wrapper : String → Daemon V P → Daemon V P
  handle_unregister_wrapper sid d =
      let d₁ = drop_all (child_ids sid d.state.sessions) (drop_channels sid d) in
      broadcast_state env (dirty (with_state (remove_wrapper sid) d₁))

  -- `UpdateSuggestion`
  unfoldable pub handle_update_suggestion : String → Option String → Daemon V P → Daemon V P
  handle_update_suggestion sid suggestion d = elim (session_at sid d.state) [
    | none ↦ d
    | some s ↦
        if differ s.prompt_suggestion suggestion
        then broadcast_state env (dirty (with_state (on_session sid (set_suggestion suggestion)) d))
        else d
  ]

  -- `UpdateThinkingText`
  unfoldable pub handle_update_thinking_text : String → Option String → Daemon V P → Daemon V P
  handle_update_thinking_text sid text d = elim (session_at sid d.state) [
    | none ↦ d
    | some s ↦
        if differ s.thinking_text text
        then broadcast_state env (dirty (with_state (on_session sid (set_thinking text)) d))
        else d
  ]

  -- injects a text by the channel of a wrapper: the response, and the state after it
  unfoldable pub inject : String → String → Daemon V P → ServerEvent V × Daemon V P
  inject sid text d =
      if is_subagent sid d.state
      then (error "cannot inject prompt into subagent", d)
      else elim (find_wrapper_tx sid d.wrapper_channels) [
        | none ↦ (error "session is not wrapped", d)
        | some tx ↦
            let d₁ = attempt env (event tx (inject_prompt text)) d in
            if delivered env d
            then (
              prompt_sent sid,
              broadcast_state env (with_state (set_status env.now sid working) d₁),
            )
            else (error "wrapper channel full or closed", d₁)
      ]

  abbrev pub respond : ℕ → ServerEvent V × Daemon V P → Daemon V P
  respond reply result =
      emit (replied reply (or_default (encode_line env.to_string result.0))) result.1

  -- `SendPrompt`
  unfoldable pub handle_send_prompt :
      (sid text : String) → List ImageAttachment → ℕ → Daemon V P → Daemon V P
  handle_send_prompt sid text [] reply d = respond reply (inject sid text d)
  handle_send_prompt sid text (image ∷ images) reply d =
      let (paths, saved) = save_images_to_temp env (image ∷ images) d in
      elim paths [
        | none ↦ respond reply (error ("failed to save images: " ++ env.save_error), saved)
        | some found ↦ respond reply (inject sid (augmented text found) saved)
      ]
