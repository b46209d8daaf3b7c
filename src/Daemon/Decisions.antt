-- ===== src/Daemon/Decisions.antt =====
-- How permission requests are decided: by a client, or by a hook event.
pub mod Listed
pub mod Terminal
pub mod Settled
pub mod Waited
pub mod Between
use agent_dash.Prelude.{
  ℕ, String, Bool, true, ◌≡◌, refl, ◌∙◌, ap, Option, none, some, List, [], ◌∷◌, arith, ◌==◌, eq_iff,
  eq_refl, Option-cases, inl, inr, if◌then◌else◌, ◌⊎◌, sym,
}
use agent_dash.Table.{lookup, insert}
use agent_dash.Table.Laws.{lookup-insert, lookup-remove}
use agent_dash.Protocol.{
  ServerEvent, HookPermissionDecision, permission_resolved, permission_pending,
}
use agent_dash.State.{DaemonState, PendingPermission, resolve_permission, add_permission_request}
use agent_dash.State.Permissions.{
  resolve_permission_pending, resolve_permission_unknown, pending-add, request,
}
use agent_dash.Daemon.{Daemon, Env, answer, dirty, broadcast_to_subscribers, broadcast_state}
use agent_dash.Daemon.Requests.{
  handle_permission_request, handle_permission_response, display_session,
}
use agent_dash.Daemon.Calm.{
  IsCalm, IsQuiet, decisions, IsQuiet-trans, broadcast-IsQuiet, broadcast_state-IsQuiet,
}

pub pending-resolve :
    {V : Type 0} (now : ℕ) (rid j : String) (st : DaemonState V)
    → lookup j (resolve_permission now rid st).1.pending_permissions
      ≡ (if rid == j then none else lookup j st.pending_permissions)
pending-resolve now rid j st = elim (Option-cases (lookup rid st.pending_permissions)) [
  | inl absent ↦ rw (resolve_permission_unknown now rid st absent) (ground (arith, eq_iff rid j))
  | inr (perm, there) ↦ (resolve_permission_pending now rid j perm st there).1
]

abbrev pub reply_to : {V : Type 0} → (rid decision : String) → Option V → HookPermissionDecision V
reply_to rid decision suggestion = record {
  request_id = rid;
  decision = decision;
  suggestion = suggestion;
}

module _ {V P : Type 0} where
  pub state-answer :
      (dec : HookPermissionDecision V) (rid : String) (d : Daemon V P)
      → (answer dec rid d).state ≡ d.state
  unfolding answer
  state-answer dec rid d = ground arith

  pub waiters-answer :
      (dec : HookPermissionDecision V) (rid j : String) (d : Daemon V P)
      → lookup j (answer dec rid d).permission_waiters
        ≡ (if rid == j then none else lookup j d.permission_waiters)
  unfolding answer
  waiters-answer dec rid j d = elim (Option-cases (lookup rid d.permission_waiters)) [
    | inl nobody ↦ rw (nobody, answer) (ground (arith, eq_iff rid j))
    | inr (w, there) ↦ rw (there, answer) (lookup-remove rid j d.permission_waiters)
  ]

  pub decisions-answer :
      (dec : HookPermissionDecision V) (rid : String) (w : ℕ) (d : Daemon V P)
      → lookup rid d.permission_waiters ≡ some w
      → decisions (answer dec rid d).outputs ≡ (w, dec) ∷ decisions d.outputs
  unfolding answer decisions
  decisions-answer dec rid w d there = rw (there, answer) refl

  decisions-unanswered :
      (dec : HookPermissionDecision V) (rid : String) (d : Daemon V P)
      → lookup rid d.permission_waiters ≡ none
      → decisions (answer dec rid d).outputs ≡ decisions d.outputs
  unfolding answer
  decisions-unanswered dec rid d nobody = rw (nobody, answer) refl

module _ {V P : Type 0} (env : Env V P) where
  -- what both ways of resolving a request do: the waiter is told, then the subscribers
  abbrev pub resolved : HookPermissionDecision V → String → ServerEvent V → Daemon V P → Daemon V P
  resolved dec rid e d =
      broadcast_to_subscribers env e
        (answer dec rid (record d { state = (resolve_permission env.now rid d.state).1 }))

  module _ (dec : HookPermissionDecision V) (rid : String) (e : ServerEvent V)
      (d : Daemon V P) where
    abbrev answered : Daemon V P
    answered = answer dec rid (record d { state = (resolve_permission env.now rid d.state).1 })

    pub state-resolved : (resolved dec rid e d).state ≡ (resolve_permission env.now rid d.state).1
    state-resolved =
        (broadcast-IsQuiet env e answered).state
        ∙ state-answer dec rid (record d { state = (resolve_permission env.now rid d.state).1 })

    pub waiters-resolved :
        (j : String)
        → lookup j (resolved dec rid e d).permission_waiters
          ≡ (if rid == j then none else lookup j d.permission_waiters)
    waiters-resolved j =
        ap (lookup j) (broadcast-IsQuiet env e answered).waiters
        ∙ waiters-answer dec rid j (record d { state = (resolve_permission env.now rid d.state).1 })

    pub decisions-resolved :
        (w : ℕ)
        → lookup rid d.permission_waiters ≡ some w
        → decisions (resolved dec rid e d).outputs ≡ (w, dec) ∷ decisions d.outputs
    decisions-resolved w there =
        (broadcast-IsQuiet env e answered).decided
        ∙ decisions-answer dec rid w
            (record d { state = (resolve_permission env.now rid d.state).1 }) there

    pub decisions-nobody :
        lookup rid d.permission_waiters ≡ none
        → decisions (resolved dec rid e d).outputs ≡ decisions d.outputs
    decisions-nobody nobody =
        (broadcast-IsQuiet env e answered).decided
        ∙ decisions-unanswered dec rid
            (record d { state = (resolve_permission env.now rid d.state).1 }) nobody

  abbrev pub told :
      (rid decision : String) → Option V → PendingPermission V → Daemon V P → Daemon V P
  told rid decision suggestion perm d =
      resolved (reply_to rid decision suggestion) rid
        (permission_resolved perm.request_id "dashboard") d

  pub told-response :
      (rid decision : String) (suggestion : Option V) (perm : PendingPermission V) (d : Daemon V P)
      → lookup rid d.state.pending_permissions ≡ some perm
      → handle_permission_response env rid decision suggestion d
        ≡ broadcast_state env (dirty (told rid decision suggestion perm d))
  unfolding handle_permission_response
  told-response rid decision suggestion perm d there =
      rw
        (
          (resolve_permission_pending env.now rid rid perm d.state there).0,
          handle_permission_response,
        )
        refl

  pub told-IsQuiet :
      (rid decision : String) (suggestion : Option V) (perm : PendingPermission V) (d : Daemon V P)
      → IsQuiet
          (told rid decision suggestion perm d)
          (broadcast_state env (dirty (told rid decision suggestion perm d)))
  told-IsQuiet rid decision suggestion perm d =
      IsQuiet-trans (record { state = refl; waiters = refl; decided = refl })
        (broadcast_state-IsQuiet env _)

  decisions-told :
      (rid decision : String) (suggestion : Option V) (w : ℕ) (perm : PendingPermission V)
      (d : Daemon V P)
      → lookup rid d.permission_waiters ≡ some w
      → decisions (broadcast_state env (dirty (told rid decision suggestion perm d))).outputs
        ≡ (w, reply_to rid decision suggestion) ∷ decisions d.outputs
  decisions-told rid decision suggestion w perm d waits =
      (told-IsQuiet rid decision suggestion perm d).decided
      ∙ decisions-resolved (reply_to rid decision suggestion) rid
          (permission_resolved perm.request_id "dashboard") d w waits

  -- A client's answer to a pending request goes to the hook that waits for it, once and word for
  -- word; no other hook is told anything, and the request and its waiter are gone. An answer to a
  -- request that is not pending changes nothing and sends nothing.
  pub permission_response_lem :
      (rid other j decision : String) (suggestion : Option V) (w : ℕ) (perm : PendingPermission V)
      (d : Daemon V P)
      → lookup rid d.state.pending_permissions ≡ some perm
      → lookup rid d.permission_waiters ≡ some w
      → lookup other d.state.pending_permissions ≡ none
      → (decisions (handle_permission_response env rid decision suggestion d).outputs
          ≡ (w, reply_to rid decision suggestion) ∷ decisions d.outputs)
        × (lookup j (handle_permission_response env rid decision suggestion d).permission_waiters
            ≡ (if rid == j then none else lookup j d.permission_waiters))
        × (lookup j
              (handle_permission_response env rid decision suggestion d).state.pending_permissions
            ≡ (if rid == j then none else lookup j d.state.pending_permissions))
        × (handle_permission_response env other decision suggestion d ≡ d)
  unfolding handle_permission_response
  permission_response_lem rid other j decision suggestion w perm d asked waits unknown =
      let dec : HookPermissionDecision V = reply_to rid decision suggestion in
      let e : ServerEvent V = permission_resolved perm.request_id "dashboard" in
      let q = told-IsQuiet rid decision suggestion perm d in
      rw (told-response rid decision suggestion perm d asked) (
        decisions-told rid decision suggestion w perm d waits,
        ap (lookup j) q.waiters ∙ waiters-resolved dec rid e d j,
        ap (λ st. lookup j st.pending_permissions) (q.state ∙ state-resolved dec rid e d)
            ∙ pending-resolve env.now rid j d.state,
        rw (resolve_permission_unknown env.now other d.state unknown, handle_permission_response)
            refl,
      )

  pub request-facts :
      (rid sid tool detail : String) (suggestions : List V) (reply : ℕ) (d : Daemon V P)
      → IsQuiet
          (record d {
            state = add_permission_request env.now sid rid tool detail suggestions d.state;
            permission_waiters = insert rid reply d.permission_waiters;
          })
          (handle_permission_request env rid sid tool detail suggestions reply d)
  unfolding handle_permission_request
  request-facts rid sid tool detail suggestions reply d =
      IsQuiet-trans (broadcast-IsQuiet env _ _) (
        IsQuiet-trans (record { state = refl; waiters = refl; decided = refl })
          (broadcast_state-IsQuiet env _))

module _ {V P : Type 0} (env env' : Env V P) where
  pub response-calm :
      (rid sid tool detail decision : String) (suggestions : List V) (suggestion : Option V)
      (reply : ℕ) (d d' : Daemon V P)
      → IsCalm (handle_permission_request env rid sid tool detail suggestions reply d) d'
      → decisions (handle_permission_response env' rid decision suggestion d').outputs
        ≡ (reply, reply_to rid decision suggestion) ∷ decisions d.outputs
  response-calm rid sid tool detail decision suggestions suggestion reply d d' calm =
      let filed = request-facts env rid sid tool detail suggestions reply d in
      let asked : lookup rid d'.state.pending_permissions
          ≡ some (request sid rid tool detail suggestions) =
        ap (lookup rid) calm.pending
        ∙ ap (λ st. lookup rid st.pending_permissions) filed.state
        ∙ pending-add env.now sid rid tool detail rid suggestions d.state
        ∙ rw (eq_refl rid) in
      let waits : lookup rid d'.permission_waiters ≡ some reply =
        ap (lookup rid) calm.waiters
        ∙ ap (lookup rid) filed.waiters
        ∙ lookup-insert rid rid reply d.permission_waiters
        ∙ rw (eq_refl rid) in
      let perm : PendingPermission V = request sid rid tool detail suggestions in
      rw (told-response env' rid decision suggestion perm d' asked) (
        decisions-told env' rid decision suggestion reply perm d' waits
        ∙ ap (λ ds. (reply, reply_to rid decision suggestion) ∷ ds) (calm.decided ∙ filed.decided))
