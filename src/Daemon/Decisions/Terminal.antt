-- ===== src/Daemon/Decisions/Terminal.antt =====
-- What `resolve_each` does: the loop over the requests of the session of a hook event.
use agent_dash.Prelude.{
  ℕ, String, true, false, ◌≡◌, refl, ◌∙◌, ap, subst, none, some, List, [], ◌∷◌, arith, ◌==◌, eq_iff,
  Option-cases, Bool-cases, inl, inr, if◌then◌else◌, sym, ◌⊎◌,
}
use agent_dash.Table.{lookup}
use agent_dash.Protocol.{HookPermissionDecision, permission_resolved}
use agent_dash.State.{PendingPermission}
use agent_dash.State.Permissions.{resolve_permission_pending, resolve_permission_unknown}
use agent_dash.State.Invariant.{IsConsistent, resolve_permission-IsConsistent}
use agent_dash.Daemon.{Daemon, Env}
use agent_dash.Daemon.Hook.{allow, resolve_at_terminal, resolve_each}
use agent_dash.Daemon.Calm.{decisions}
use agent_dash.Daemon.Decisions.{
  resolved, state-resolved, waiters-resolved, decisions-resolved, decisions-nobody, pending-resolve,
}
use agent_dash.Daemon.Decisions.Listed.{listed}

-- whether a decision was sent to a waiter
pub WasSent :
    {V : Type 0} → ℕ → HookPermissionDecision V → List (ℕ × HookPermissionDecision V) → Type 0
WasSent {V} w dec [] = ⊥
WasSent {V} w dec ((v, other) ∷ ds) =
    (◌≡◌ {A = ℕ × HookPermissionDecision V} (v, other) (w, dec)) ⊎ WasSent w dec ds

module _ {V P : Type 0} (env : Env V P) where
  terminal-found :
      (rid : String) (perm : PendingPermission V) (d : Daemon V P)
      → lookup rid d.state.pending_permissions ≡ some perm
      → resolve_at_terminal env rid d
        ≡ resolved env (allow env rid) rid (permission_resolved perm.request_id "terminal") d
  unfolding resolve_at_terminal
  terminal-found rid perm d there =
      rw ((resolve_permission_pending env.now rid rid perm d.state there).0, resolve_at_terminal)
        refl

  terminal-absent :
      (rid : String) (d : Daemon V P)
      → lookup rid d.state.pending_permissions ≡ none
      → resolve_at_terminal env rid d ≡ d
  unfolding resolve_at_terminal
  terminal-absent rid d absent =
      rw (resolve_permission_unknown env.now rid d.state absent, resolve_at_terminal) refl

  pending-terminal :
      (rid j : String) (d : Daemon V P)
      → lookup j (resolve_at_terminal env rid d).state.pending_permissions
        ≡ (if rid == j then none else lookup j d.state.pending_permissions)
  pending-terminal rid j d = elim (Option-cases (lookup rid d.state.pending_permissions)) [
    | inl absent ↦ rw (terminal-absent rid d absent) (ground (arith, eq_iff rid j))
    | inr (perm, there) ↦ rw (terminal-found rid perm d there) (
        ap (λ st. lookup j st.pending_permissions) (state-resolved env _ rid _ d)
        ∙ pending-resolve env.now rid j d.state)
  ]

  -- a waiter of a request that is still pending is left
  waiters-terminal :
      (rid j : String) (d : Daemon V P)
      → (rid == j) ≡ false
      → lookup j (resolve_at_terminal env rid d).permission_waiters ≡ lookup j d.permission_waiters
  waiters-terminal rid j d other = elim (Option-cases (lookup rid d.state.pending_permissions)) [
    | inl absent ↦ rw (terminal-absent rid d absent) refl
    | inr (perm, there) ↦
        rw (terminal-found rid perm d there) (waiters-resolved env _ rid _ d j ∙ rw other refl)
  ]

  IsConsistent-terminal :
      (rid : String) (d : Daemon V P)
      → IsConsistent d.state
      → IsConsistent (resolve_at_terminal env rid d).state
  IsConsistent-terminal rid d c = elim (Option-cases (lookup rid d.state.pending_permissions)) [
    | inl absent ↦ rw (terminal-absent rid d absent) c
    | inr (perm, there) ↦
        rw
          (
            terminal-found rid perm d there,
            state-resolved env (allow env rid) rid (permission_resolved perm.request_id "terminal")
                d,
          )
          (resolve_permission-IsConsistent env.now rid d.state c)
  ]

  pub pending-resolve_each :
      (ids : List String) (j : String) (d : Daemon V P)
      → lookup j (resolve_each env ids d).state.pending_permissions
        ≡ (if listed j ids then none else lookup j d.state.pending_permissions)
  unfolding resolve_each
  pending-resolve_each [] j d = refl
  pending-resolve_each (rid ∷ ids) j d =
      ground (
        arith,
        pending-resolve_each ids j (resolve_at_terminal env rid d),
        pending-terminal rid j d,
      )

  pub IsConsistent-resolve_each :
      (ids : List String) (d : Daemon V P)
      → IsConsistent d.state
      → IsConsistent (resolve_each env ids d).state
  unfolding resolve_each
  IsConsistent-resolve_each [] d c = c
  IsConsistent-resolve_each (rid ∷ ids) d c =
      IsConsistent-resolve_each ids _ (IsConsistent-terminal rid d c)

  pub waiters-resolve_each :
      (ids : List String) (j : String) (d : Daemon V P)
      → listed j ids ≡ false
      → lookup j (resolve_each env ids d).permission_waiters ≡ lookup j d.permission_waiters
  unfolding resolve_each
  waiters-resolve_each [] j d h = refl
  waiters-resolve_each (rid ∷ ids) j d h =
      ground (
        arith,
        waiters-resolve_each ids j (resolve_at_terminal env rid d),
        waiters-terminal rid j d,
      )

  sent-terminal :
      (rid : String) (w : ℕ) (dec : HookPermissionDecision V) (d : Daemon V P)
      → WasSent w dec (decisions d.outputs)
      → WasSent w dec (decisions (resolve_at_terminal env rid d).outputs)
  unfolding WasSent
  sent-terminal rid w dec d sent = elim (Option-cases (lookup rid d.state.pending_permissions)) [
    | inl absent ↦ rw (terminal-absent rid d absent) sent
    | inr (perm, there) ↦
        let e = permission_resolved perm.request_id "terminal" in
        elim (Option-cases (lookup rid d.permission_waiters)) [
          | inl nobody ↦
              rw
                (
                  terminal-found rid perm d there,
                  decisions-nobody env (allow env rid) rid e d nobody,
                )
                sent
          | inr (v, waits) ↦
              rw
                (
                  terminal-found rid perm d there,
                  decisions-resolved env (allow env rid) rid e d v waits,
                )
                (inr sent)
        ]
  ]

  sent-resolve_each :
      (ids : List String) (w : ℕ) (dec : HookPermissionDecision V) (d : Daemon V P)
      → WasSent w dec (decisions d.outputs)
      → WasSent w dec (decisions (resolve_each env ids d).outputs)
  unfolding resolve_each
  sent-resolve_each [] w dec d sent = sent
  sent-resolve_each (rid ∷ ids) w dec d sent =
      sent-resolve_each ids w dec _ (sent-terminal rid w dec d sent)

  allowed-terminal :
      (rid : String) (w : ℕ) (perm : PendingPermission V) (d : Daemon V P)
      → lookup rid d.state.pending_permissions ≡ some perm
      → lookup rid d.permission_waiters ≡ some w
      → WasSent w (allow env rid) (decisions (resolve_at_terminal env rid d).outputs)
  unfolding WasSent
  allowed-terminal rid w perm d there waits =
      let e = permission_resolved perm.request_id "terminal" in
      rw (terminal-found rid perm d there, decisions-resolved env (allow env rid) rid e d w waits)
        (inl refl)

  pub allowed-resolve_each :
      (ids : List String) (j : String) (w : ℕ) (perm : PendingPermission V) (d : Daemon V P)
      → listed j ids ≡ true
      → lookup j d.state.pending_permissions ≡ some perm
      → lookup j d.permission_waiters ≡ some w
      → WasSent w (allow env j) (decisions (resolve_each env ids d).outputs)
  unfolding resolve_each
  allowed-resolve_each [] j w perm d h there waits = ground arith
  allowed-resolve_each (rid ∷ ids) j w perm d h there waits = elim (Bool-cases (rid == j)) [
    | inl own ↦ sent-resolve_each ids w (allow env j) (resolve_at_terminal env rid d) (
        subst (λ i. WasSent w (allow env j) (decisions (resolve_at_terminal env i d).outputs))
          (sym ((eq_iff rid j).0 own)) (allowed-terminal j w perm d there waits))
    | inr other ↦
        allowed-resolve_each ids j w perm (resolve_at_terminal env rid d) (ground arith)
          (pending-terminal rid j d ∙ rw other there) (waiters-terminal rid j d other ∙ waits)
  ]
