-- ===== src/Daemon/Decisions/Settled.antt =====
-- What a hook event does to the permission requests.
use agent_dash.Prelude.{
  ℕ, String, true, false, ◌≡◌, refl, ◌∙◌, ap, subst, none, some, List, ◌==◌, if◌then◌else◌, sym,
}
use agent_dash.Table.{lookup}
use agent_dash.Table.Laws.{keep_if}
use agent_dash.Protocol.{event_session, HookEnvelope}
use agent_dash.State.{PendingPermission, apply_hook_event}
use agent_dash.State.Invariant.{IsConsistent, apply_hook_event-IsConsistent}
use agent_dash.Daemon.{Daemon, Env, with_state}
use agent_dash.Daemon.Hook.{pending_ids, link_wrapper, allow, resolve_each, handle_hook}
use agent_dash.Daemon.Calm.{
  IsCalm, decisions, IsCalm-trans, IsCalm-of_quiet, IsQuiet-trans, broadcast_state-IsQuiet,
}
use agent_dash.Daemon.Calm.Wrapping.{link_wrapper-IsCalm, populate_path-IsCalm}
use agent_dash.Daemon.Decisions.Listed.{
  listed, keeps, listed-pending_ids, listed_of_pending_ids, pending-apply_hook_event, kept_event,
}
use agent_dash.Daemon.Decisions.Terminal.{
  WasSent, pending-resolve_each, IsConsistent-resolve_each, waiters-resolve_each,
  allowed-resolve_each,
}

module _ {V P : Type 0} (env : Env V P) (envelope : HookEnvelope) (d : Daemon V P) where
  abbrev sid : String
  sid = event_session envelope.event

  abbrev linked : Daemon V P
  linked = link_wrapper env envelope.wrapper_id sid d

  abbrev pub ids : List String
  ids = pending_ids sid linked.state.pending_permissions

  abbrev settled : Daemon V P
  settled = resolve_each env ids linked

  link : IsCalm d linked
  link = link_wrapper-IsCalm env envelope.wrapper_id sid d

  -- the rest of the handler leaves the requests as the event leaves them
  rest :
      IsCalm
        (with_state (apply_hook_event env.now envelope.event) settled)
        (handle_hook env envelope d)
  unfolding handle_hook
  rest = IsCalm-trans (populate_path-IsCalm env envelope.wrapper_id sid _) (
      IsCalm-of_quiet (
        IsQuiet-trans (record { state = refl; waiters = refl; decided = refl })
          (broadcast_state-IsQuiet env _)))

  IsConsistent-settled : IsConsistent d.state → IsConsistent settled.state
  IsConsistent-settled c = IsConsistent-resolve_each env ids linked (link.consistent c)

  pub hook-IsConsistent : IsConsistent d.state → IsConsistent (handle_hook env envelope d).state
  hook-IsConsistent c =
      rest.consistent (
        apply_hook_event-IsConsistent env.now envelope.event settled.state (IsConsistent-settled c))

  pub pending-hook :
      (j : String)
      → IsConsistent d.state
      → lookup j (handle_hook env envelope d).state.pending_permissions
        ≡ keep_if
            (keeps envelope.event)
            (if listed j ids then none else lookup j d.state.pending_permissions)
  pending-hook j c =
      ap (lookup j) rest.pending
      ∙ pending-apply_hook_event env.now envelope.event j settled.state (IsConsistent-settled c)
      ∙ ap (keep_if (keeps envelope.event)) (
          pending-resolve_each env ids j linked
          ∙ ap (λ m. if listed j ids then none else lookup j m) link.pending)

  pub waiters-hook :
      (j : String)
      → listed j ids ≡ false
      → lookup j (handle_hook env envelope d).permission_waiters ≡ lookup j d.permission_waiters
  waiters-hook j h =
      ap (lookup j) rest.waiters
      ∙ waiters-resolve_each env ids j linked h
      ∙ ap (lookup j) link.waiters

  -- Any hook event of a session ends each permission request of that session that is pending: the
  -- hook that waits for it is told "allow", whatever tool or event the request and the event are
  -- about.
  pub hook_allows :
      (j : String) (w : ℕ) (perm : PendingPermission V)
      → IsConsistent d.state
      → lookup j d.state.pending_permissions ≡ some perm
      → (perm.session_id == event_session envelope.event) ≡ true
      → lookup j d.permission_waiters ≡ some w
      → (lookup j (handle_hook env envelope d).state.pending_permissions ≡ none)
        × WasSent w (allow env j) (decisions (handle_hook env envelope d).outputs)
  hook_allows j w perm c asked own waits =
      let asked' : lookup j linked.state.pending_permissions ≡ some perm =
        ap (lookup j) link.pending ∙ asked in
      let is_listed = listed-pending_ids sid j perm linked.state.pending_permissions asked' own in
      (
        pending-hook j c ∙ rw is_listed refl,
        subst (WasSent w (allow env j)) (sym rest.decided) (
            allowed-resolve_each env ids j w perm linked is_listed asked'
              (ap (lookup j) link.waiters ∙ waits)),
      )

  -- A hook event leaves every permission request of another session pending, with its waiter.
  pub hook_keeps_others :
      (j : String) (perm : PendingPermission V)
      → IsConsistent d.state
      → lookup j d.state.pending_permissions ≡ some perm
      → (perm.session_id == event_session envelope.event) ≡ false
      → (lookup j (handle_hook env envelope d).state.pending_permissions ≡ some perm)
        × (lookup j (handle_hook env envelope d).permission_waiters ≡ lookup j d.permission_waiters)
  hook_keeps_others j perm c asked other =
      let unlisted =
        listed_of_pending_ids sid j perm linked.state.pending_permissions
          (link.consistent c).unique_pending (ap (lookup j) link.pending ∙ asked) other in
      (
        pending-hook j c ∙ rw (unlisted, asked) (kept_event envelope.event perm other),
        waiters-hook j unlisted,
      )
