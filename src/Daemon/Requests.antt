-- ===== src/Daemon/Requests.antt =====
-- crates/agent-dash/src/daemon.rs: the handlers of subscriptions and of permission requests.
use agent_dash.Prelude.{
  ℕ, String, Bool, Option, none, some, List, [], ◌∷◌, ◌++◌, if◌then◌else◌, unwrap_or,
}
use agent_dash.Table.{insert, values}
use agent_dash.Protocol.{
  ServerEvent, state_update, permission_pending, permission_resolved, HookPermissionDecision,
}
use agent_dash.State.{
  DaemonState, PendingPermission, parent_of, add_permission_request, resolve_permission,
}
use agent_dash.State.View.{to_dash_sessions, to_all_dash_sessions}
use agent_dash.Daemon.{
  Daemon, Env, replied, encode_line, emit, dirty, send_line, answer, broadcast_to_subscribers,
  broadcast_state,
}

-- the session that clients are told: the wrapper of a child
abbrev pub display_session : {V : Type 0} → String → DaemonState V → String
display_session sid st = unwrap_or (parent_of sid st) sid

abbrev pub pending_event : {V : Type 0} → PendingPermission V → DaemonState V → ServerEvent V
pending_event p st =
    permission_pending (display_session p.session_id st) p.request_id p.tool p.detail p.suggestions

module _ {V P : Type 0} (env : Env V P) where
  unfoldable pub send_pending : ℕ → List (PendingPermission V) → Daemon V P → Daemon V P
  send_pending tx [] d = d
  send_pending tx (p ∷ ps) d = send_pending tx ps (send_line env tx (pending_event p d.state) d)

  -- `Subscribe`
  unfoldable pub handle_subscribe : ℕ → Daemon V P → Daemon V P
  handle_subscribe tx d =
      let d₁ = send_line env tx (state_update (to_dash_sessions d.state)) d in
      let d₂ = send_pending tx (values d.state.pending_permissions) d₁ in
      record d₂ { subscribers = d₂.subscribers ++ tx ∷ [] }

  -- `GetState`
  unfoldable pub handle_get_state : Bool → ℕ → Daemon V P → Daemon V P
  handle_get_state include_subagents reply d =
      let sessions =
        if include_subagents then to_all_dash_sessions d.state else to_dash_sessions d.state in
      elim (encode_line env.to_string (state_update sessions)) [
        | none ↦ d
        | some text ↦ emit (replied reply text) d
      ]

  -- `PermissionResponse`; its `session_id` is not read
  unfoldable pub handle_permission_response :
      (rid decision : String) → Option V → Daemon V P → Daemon V P
  handle_permission_response rid decision suggestion d =
      let (found, st) = resolve_permission env.now rid d.state in
      let reply : HookPermissionDecision V = record {
        request_id = rid;
        decision = decision;
        suggestion = suggestion;
      } in
      elim found [
        | none ↦ d
        | some perm ↦ broadcast_state env (
            dirty (
              broadcast_to_subscribers env (permission_resolved perm.request_id "dashboard")
                (answer reply rid (record d { state = st }))))
      ]

  -- `PermissionRequest`
  unfoldable pub handle_permission_request :
      (rid sid tool detail : String) → List V → ℕ → Daemon V P → Daemon V P
  handle_permission_request rid sid tool detail suggestions reply d =
      let st = add_permission_request env.now sid rid tool detail suggestions d.state in
      let d₁ = record d {
        state = st;
        permission_waiters = insert rid reply d.permission_waiters;
      } in
      let pending = permission_pending (display_session sid st) rid tool detail suggestions in
      broadcast_state env (dirty (broadcast_to_subscribers env pending d₁))
