-- ===== src/Daemon/Hook.antt =====
-- crates/agent-dash/src/daemon.rs: the handler of a hook event in the main loop.
use agent_dash.Prelude.{
  String, Option, none, some, List, [], ◌∷◌, ◌==◌, ◌&&◌, not, if◌then◌else◌, is_none,
}
use agent_dash.Table.{Table, lookup, contains_key, insert}
use agent_dash.Protocol.{HookEnvelope, event_session, HookPermissionDecision, permission_resolved}
use agent_dash.State.{
  DaemonState, InternalSession, PendingPermission, session_at, on_session, ensure_session,
  apply_hook_event, resolve_permission,
}
use agent_dash.Daemon.{
  Daemon, Env, answer, with_state, dirty, broadcast_to_subscribers, broadcast_state,
}
use agent_dash.Daemon.Disk.{find_jsonl_on_disk}
use agent_dash.Daemon.Resolve.{resolve_jsonl_path}

-- the keys of the requests of a session
unfoldable pub pending_ids : {V : Type 0} → String → Table (PendingPermission V) → List String
pending_ids sid [] = []
pending_ids sid ((id, p) ∷ rest) =
    let ids = pending_ids sid rest in if p.session_id == sid then id ∷ ids else ids

-- a session that is not the wrapper's own, and not a main one, is a child of the wrapper
abbrev pub make_child : String → String → InternalSession → InternalSession
make_child wid sid s =
    if not (sid == wid) && not s.is_main then record s { parent_wrapper_id = some wid } else s

abbrev pub set_path : String → InternalSession → InternalSession
set_path path s = record s { jsonl_path = some path }

abbrev pub set_missing_path : String → InternalSession → InternalSession
set_missing_path path s = if is_none s.jsonl_path then set_path path s else s

module _ {V P : Type 0} where
  -- aliases the session to the prompt channel of its wrapper
  unfoldable pub alias_channel : String → String → Daemon V P → Daemon V P
  alias_channel wid sid d =
      if contains_key sid d.wrapper_channels then d else elim (lookup wid d.wrapper_channels) [
        | none ↦ d
        | some wtx ↦ record d { wrapper_channels = insert sid wtx d.wrapper_channels }
      ]

module _ {V P : Type 0} (env : Env V P) where
  unfoldable pub link_wrapper : Option String → String → Daemon V P → Daemon V P
  link_wrapper none sid d = d
  link_wrapper (some wid) sid d =
      with_state (λ st. on_session sid (make_child wid sid) (ensure_session env.now sid st))
        (alias_channel wid sid d)

  abbrev pub allow : String → HookPermissionDecision V
  allow rid = record { request_id = rid; decision = "allow"; suggestion = none }

  -- one round of the loop over the pending requests of the event's session
  unfoldable pub resolve_at_terminal : String → Daemon V P → Daemon V P
  resolve_at_terminal rid d =
      let (found, st) = resolve_permission env.now rid d.state in
      elim found [
        | none ↦ d
        | some perm ↦
            broadcast_to_subscribers env (permission_resolved perm.request_id "terminal")
              (answer (allow rid) rid (record d { state = st }))
      ]

  unfoldable pub resolve_each : List String → Daemon V P → Daemon V P
  resolve_each [] d = d
  resolve_each (rid ∷ rids) d = resolve_each rids (resolve_at_terminal rid d)

  -- the transcript path, on the session and on its wrapper
  abbrev pub set_paths : Option String → String → String → DaemonState V → DaemonState V
  set_paths none sid path st = on_session sid (set_path path) st
  set_paths (some wid) sid path st =
      let st₁ = on_session sid (set_path path) st in
      if wid == sid then st₁ else on_session wid (set_missing_path path) st₁

  unfoldable pub populate_path : Option String → String → DaemonState V → DaemonState V
  populate_path wrapper sid st = elim (session_at sid st) [
    | none ↦ st
    | some s ↦
        if is_none s.jsonl_path
        then elim (resolve_jsonl_path (find_jsonl_on_disk env) sid st) [
          | none ↦ st
          | some path ↦ set_paths wrapper sid path st
        ]
        else st
  ]

  -- the arm for `hook_rx` of the loop
  unfoldable pub handle_hook : HookEnvelope → Daemon V P → Daemon V P
  handle_hook envelope d =
      let sid = event_session envelope.event in
      let d₁ = link_wrapper envelope.wrapper_id sid d in
      let d₂ = resolve_each (pending_ids sid d₁.state.pending_permissions) d₁ in
      let d₃ = with_state (apply_hook_event env.now envelope.event) d₂ in
      let d₄ = with_state (populate_path envelope.wrapper_id sid) d₃ in
      broadcast_state env (dirty d₄)
