-- ===== src/HookListener/Shown.antt =====
-- From a hook process to what the daemon knows of the session.
use agent_dash.Prelude.{
  String, Option, none, some, ◌≡◌, refl, ap, ◌∙◌, ◌==◌, arith, eq_refl, map_option, Option-cases,
  Bool-cases, inl, inr, true, false, is_none, both_branches, and_then,
}
use Prim.Native.String.{◌++◌ as ◌<>◌}
use agent_dash.Messages.Strings.{trim}
use agent_dash.Messages.Json.{Json}
use agent_dash.Session.{working}
use agent_dash.Protocol.{HookEnvelope, event_session}
use agent_dash.State.{DaemonState, InternalSession, session_at, on_session, apply_hook_event}
use agent_dash.State.Effects.{session_at-on_session}
use agent_dash.State.Hooks.{activity, activity_of, move, activity-apply_hook_event}
use agent_dash.Daemon.{Daemon, Env}
use agent_dash.Daemon.Disk.{find_jsonl_on_disk}
use agent_dash.Daemon.Resolve.{resolve_jsonl_path}
use agent_dash.Daemon.Hook.{
  handle_hook, link_wrapper, resolve_each, pending_ids, populate_path, set_paths, set_path,
  set_missing_path,
}
use agent_dash.Daemon.Calm.{broadcast_state-IsQuiet}
use agent_dash.Paths.{replace}
use agent_dash.HookCmd as HookCmd
use agent_dash.HookCmd.{run, dispatch, str_of, start_event, extract_tool_detail, send_hook_event}
use agent_dash.HookListener.{handle_hook_connection}

set_missing_path-activity :
    (path : String) (s : InternalSession) → activity_of (set_missing_path path s) ≡ activity_of s
set_missing_path-activity path s =
    both_branches (λ x. activity_of x ≡ activity_of s) (is_none s.jsonl_path) refl refl

module _ {V : Type 0} where
  activity-on_session :
      (k j : String) (f : InternalSession → InternalSession) (st : DaemonState V)
      → ((s : InternalSession) → activity_of (f s) ≡ activity_of s)
      → activity j (on_session k f st) ≡ activity j st
  activity-on_session k j f st keeps = elim (Option-cases (session_at j st)) [
    | inl absent ↦ ground (arith, session_at-on_session k j f st, absent)
    | inr (s, there) ↦ ground (arith, session_at-on_session k j f st, there, keeps s)
  ]

  module _ {P : Type 0} (env : Env V P) where
    activity-set_paths :
        (wrapper : Option String) (sid path j : String) (st : DaemonState V)
        → activity j (set_paths env wrapper sid path st) ≡ activity j st
    activity-set_paths none sid path j st = activity-on_session sid j (set_path path) st (λ s. refl)
    activity-set_paths (some wid) sid path j st =
        let once = activity-on_session sid j (set_path path) st (λ s. refl) in
        both_branches (λ x. activity j x ≡ activity j st) (wid == sid) once
          (activity-on_session wid j (set_missing_path path) (on_session sid (set_path path) st)
              (set_missing_path-activity path)
            ∙ once)

    activity-populate_path :
        (wrapper : Option String) (sid j : String) (st : DaemonState V)
        → activity j (populate_path env wrapper sid st) ≡ activity j st
    unfolding populate_path
    activity-populate_path wrapper sid j st = elim (Option-cases (session_at sid st)) [
      | inl absent ↦ rw (absent, populate_path) refl
      | inr (s, there) ↦ elim (Bool-cases (is_none s.jsonl_path)) [
        | inr has ↦ rw (there, populate_path, has) refl
        | inl lacks ↦ elim (Option-cases (resolve_jsonl_path (find_jsonl_on_disk env) sid st)) [
          | inl nowhere ↦ rw (there, populate_path, lacks, nowhere) refl
          | inr (path, found) ↦
              rw (there, populate_path, lacks, found) (activity-set_paths wrapper sid path j st)
        ]
      ]
    ]

    -- An event moves the activity of its session by the state machine of the hook events, from the
    -- activity that the session has once it is linked to its wrapper and its requests are resolved.
    activity-handle_hook :
        (envelope : HookEnvelope) (d : Daemon V P)
        → let sid = event_session envelope.event in
          let d₁ = link_wrapper env envelope.wrapper_id sid d in
          let d₂ = resolve_each env (pending_ids sid d₁.state.pending_permissions) d₁ in
          activity sid (handle_hook env envelope d).state
          ≡ move envelope.event (activity sid d₂.state)
    unfolding handle_hook
    activity-handle_hook envelope d =
        let sid = event_session envelope.event in
        let d₁ = link_wrapper env envelope.wrapper_id sid d in
        let d₂ = resolve_each env (pending_ids sid d₁.state.pending_permissions) d₁ in
        ap (activity sid) (broadcast_state-IsQuiet env _).state
        ∙ activity-populate_path envelope.wrapper_id sid sid
            (apply_hook_event env.now envelope.event d₂.state)
        ∙ activity-apply_hook_event env.now envelope.event sid d₂.state
        ∙ rw (eq_refl sid) refl

abbrev pub send :
    {W : Type 0} → (HookEnvelope → Option String) → Option String → HookCmd.Sent W → Option String
send to_string wrapper (HookCmd.event e) = send_hook_event true to_string wrapper e
send to_string wrapper (HookCmd.request rid sid tool detail suggestions) = none

module _ {W : Type 0} (json : Json W) (input : W) where
  abbrev pub opened : String
  opened = str_of json "session_id" input

  abbrev pub used : String
  used = str_of json "tool_name" input

  -- what the hook process sends before a use of a tool
  abbrev pub announced : Option String → HookEnvelope
  announced wrapper = record { event = start_event json input opened; wrapper_id = wrapper }

  -- If serde reads back the envelope of this hook, then a hook process that is run for
  -- `pre_tool_use` on a session's input makes the daemon, in whatever state it is, show that session
  -- as working on the tool that the input names.
  pub tool_use_shown :
      {V P : Type 0} (env : Env V P) (to_string : HookEnvelope → Option String)
      (read : String → Option HookEnvelope) (fresh stdin text : String) (wrapper : Option String)
      (d : Daemon V P)
      → json.from_str stdin ≡ some input
      → (opened == "") ≡ false
      → to_string (announced wrapper) ≡ some text
      → (trim (text <> "\n") == "") ≡ false
      → read (trim (text <> "\n")) ≡ some (announced wrapper)
      → map_option
          (λ e. activity opened (handle_hook env e d).state)
          (handle_hook_connection read
            (and_then (run json fresh "pre_tool_use" stdin) (send to_string wrapper)))
        ≡ some (
            some (record {
              status = working;
              tool =
                  some (used, extract_tool_detail json input used, str_of json "tool_use_id" input);
            }))
  unfolding run dispatch replace send_hook_event handle_hook_connection
  tool_use_shown env to_string read fresh stdin text wrapper d parsed named printed filled reads =
      rw (parsed, named, printed, filled, reads)
        (ap some (activity-handle_hook env (announced wrapper) d))
