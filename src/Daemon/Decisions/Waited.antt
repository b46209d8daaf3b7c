-- ===== src/Daemon/Decisions/Waited.antt =====
-- Who waits for a pending request, over the whole main loop.
use agent_dash.Prelude.{
  ℕ, String, true, ◌≡◌, refl, ◌∙◌, ap, subst, sym, Option, none, some, List, [], ◌∷◌, arith,
  Option-cases, inl, inr, is_some, ◌==◌, if◌then◌else◌,
}
use agent_dash.Table.{lookup, contains_key}
use agent_dash.Table.Laws.{lookup-insert}
use agent_dash.Protocol.{HookEnvelope, permission_resolved}
use agent_dash.State.{PendingPermission, remove_wrapper, session_at, belongs_to, InternalSession}
use agent_dash.State.Permissions.{pending-add, resolve_permission_unknown}
use agent_dash.State.Wrappers.{remove_wrapper_lem}
use agent_dash.State.Invariant.{
  IsConsistent, IsConsistent-new, add_permission_request-IsConsistent,
  resolve_permission-IsConsistent, remove_wrapper-IsConsistent,
}
use agent_dash.Daemon.{Daemon, Env, with_state, dirty}
use agent_dash.Daemon.Hook.{handle_hook}
use agent_dash.Daemon.Requests.{handle_permission_request, handle_permission_response}
use agent_dash.Daemon.Wrappers.{child_ids, drop_channels, drop_all, handle_unregister_wrapper}
use agent_dash.Daemon.Loop.{
  new, permission_response, permission_request, unregister_wrapper, Turn, hook, client, turn, run,
  handle_client,
}
use agent_dash.Daemon.Calm.{
  IsCalm, IsQuiet, decisions, IsQuiet-refl, IsQuiet-trans, IsCalm-of_quiet, broadcast_state-IsQuiet,
}
use agent_dash.Daemon.Decisions.{
  reply_to, told-response, told-IsQuiet, state-resolved, waiters-resolved, pending-resolve,
  request-facts,
}
use agent_dash.Daemon.Decisions.Settled.{hook-IsConsistent, pending-hook, waiters-hook}
use agent_dash.Daemon.Decisions.Between.{turn-IsCalm}

-- The reply channels of the hooks by the ids of their requests, once a turn is taken: that of a
-- request replaces an earlier one of the same id.
abbrev pub note : {V : Type 0} → Turn V → (String → Option ℕ) → String → Option ℕ
note (client (permission_request rid _ _ _ _ reply)) asker j =
    if rid == j then some reply else asker j
note _ asker j = asker j

-- who last asked under each id, of the hooks that have made requests in some turns
abbrev pub askers :
    {V P : Type 0} → (String → Option ℕ) → List (Env V P × Turn V) → String → Option ℕ
askers asker [] = asker
askers asker ((_, t) ∷ turns) = askers (note t asker) turns

-- The tables of the state are well formed, and for every pending request a waiter is kept, which is
-- the one that asked.
pub record IsWaited {V P : Type 0} (asker : String → Option ℕ) (d : Daemon V P) : Type 0 where
  pub consistent : IsConsistent d.state
  pub waited :
      (j : String)
      → contains_key j d.state.pending_permissions ≡ true
      → (contains_key j d.permission_waiters ≡ true) × (lookup j d.permission_waiters ≡ asker j)

module _ {V P : Type 0} where
  IsWaited-new : IsWaited (λ j. none) (new {V = V} {P = P})
  unfolding lookup
  IsWaited-new = record { consistent = IsConsistent-new; waited = λ j e. ground arith }

  calm-IsWaited :
      {asker : String → Option ℕ} {d d' : Daemon V P}
      → IsCalm d d'
      → IsWaited asker d
      → IsWaited asker d'
  calm-IsWaited calm h = record {
    consistent = calm.consistent h.consistent;
    waited = λ j e.
        let (kept, same) = h.waited j (sym (ap (contains_key j) calm.pending) ∙ e) in
        (ap (contains_key j) calm.waiters ∙ kept, ap (lookup j) calm.waiters ∙ same);
  }

  drop_all-IsQuiet : (is : List String) (d : Daemon V P) → IsQuiet d (drop_all is d)
  unfolding drop_all
  drop_all-IsQuiet [] d = IsQuiet-refl d
  drop_all-IsQuiet (i ∷ is) d =
      IsQuiet-trans {b = drop_channels i d}
        (record { state = refl; waiters = refl; decided = refl }) (drop_all-IsQuiet is _)

module _ {V P : Type 0} (env : Env V P) (asker : String → Option ℕ) where
  hook-IsWaited :
      (envelope : HookEnvelope) (d : Daemon V P)
      → IsWaited asker d
      → IsWaited asker (handle_hook env envelope d)
  hook-IsWaited envelope d h = record {
    consistent = hook-IsConsistent env envelope d h.consistent;
    waited = λ j e. ground (
      arith,
      pending-hook env envelope d j h.consistent,
      waiters-hook env envelope d j,
      h.waited j,
    );
  }

  response-IsWaited :
      (rid decision : String) (suggestion : Option V) (d : Daemon V P)
      → IsWaited asker d
      → IsWaited asker (handle_permission_response env rid decision suggestion d)
  unfolding handle_permission_response
  response-IsWaited rid decision suggestion d h =
      elim (Option-cases (lookup rid d.state.pending_permissions)) [
        | inl unknown ↦
            rw (resolve_permission_unknown env.now rid d.state unknown, handle_permission_response)
              h
        | inr (perm, asked) ↦
            let dec = reply_to rid decision suggestion in
            let e = permission_resolved perm.request_id "dashboard" in
            let after = told-IsQuiet env rid decision suggestion perm d in
            rw (told-response env rid decision suggestion perm d asked) (
              calm-IsWaited (IsCalm-of_quiet after) (record {
                consistent =
                    subst IsConsistent (sym (state-resolved env dec rid e d))
                      (resolve_permission-IsConsistent env.now rid d.state h.consistent);
                waited = λ j held. ground (
                  arith,
                  waiters-resolved env dec rid e d j,
                  pending-resolve env.now rid j d.state,
                  h.waited j,
                  ap (λ st. contains_key j st.pending_permissions) (state-resolved env dec rid e d),
                );
              }))
      ]

  request-IsWaited :
      (rid sid tool detail : String) (suggestions : List V) (reply : ℕ) (d : Daemon V P)
      → IsWaited asker d
      → IsWaited
          (note (client (permission_request rid sid tool detail suggestions reply)) asker)
          (handle_permission_request env rid sid tool detail suggestions reply d)
  request-IsWaited rid sid tool detail suggestions reply d h =
      calm-IsWaited (IsCalm-of_quiet (request-facts env rid sid tool detail suggestions reply d))
        (record {
          consistent =
              add_permission_request-IsConsistent env.now sid rid tool detail suggestions d.state
                h.consistent;
          waited = λ j e. ground (
            arith,
            pending-add env.now sid rid tool detail j suggestions d.state,
            lookup-insert rid j reply d.permission_waiters,
            h.waited j,
          );
        })

module _ {V P : Type 0} (env : Env V P) where
  -- the end of a wrapper: its channels, its sessions, and what is broadcast
  abbrev dropped : String → Daemon V P → Daemon V P
  dropped sid d = drop_all (child_ids sid d.state.sessions) (drop_channels sid d)

  dropped-IsQuiet : (sid : String) (d : Daemon V P) → IsQuiet d (dropped sid d)
  dropped-IsQuiet sid d =
      IsQuiet-trans {b = drop_channels sid d}
        (record { state = refl; waiters = refl; decided = refl })
        (drop_all-IsQuiet (child_ids sid d.state.sessions) (drop_channels sid d))

  pub unregister-facts :
      (sid : String) (d : Daemon V P)
      → IsQuiet (with_state (remove_wrapper sid) d) (handle_unregister_wrapper env sid d)
  unfolding handle_unregister_wrapper
  unregister-facts sid d =
      let gone = dropped-IsQuiet sid d in
      IsQuiet-trans
        (record {
          state = ap (remove_wrapper sid) gone.state;
          waiters = gone.waiters;
          decided = gone.decided;
        })
        (broadcast_state-IsQuiet env (dirty (with_state (remove_wrapper sid) (dropped sid d))))

  unregister-IsWaited :
      (asker : String → Option ℕ) (sid : String) (d : Daemon V P)
      → IsWaited asker d
      → IsWaited asker (handle_unregister_wrapper env sid d)
  unregister-IsWaited asker sid d h =
      calm-IsWaited (IsCalm-of_quiet (unregister-facts sid d)) (record {
        consistent = remove_wrapper-IsConsistent sid d.state h.consistent;
        waited = λ j e. elim (Option-cases (lookup j d.state.pending_permissions)) [
          | inl absent ↦ ground (arith, (remove_wrapper_lem sid j d.state h.consistent).1, absent)
          | inr (p, there) ↦ h.waited j (ap is_some there)
        ];
      })

  turn-IsWaited :
      (asker : String → Option ℕ) (t : Turn V) (d : Daemon V P)
      → IsWaited asker d
      → IsWaited (note t asker) (turn env t d)
  unfolding turn handle_client
  turn-IsWaited asker (hook envelope) d h = hook-IsWaited env asker envelope d h
  turn-IsWaited asker (client (permission_response rid sid decision suggestion)) d h =
      response-IsWaited env asker rid decision suggestion d h
  turn-IsWaited asker (client (permission_request rid sid tool detail suggestions reply)) d h =
      request-IsWaited env asker rid sid tool detail suggestions reply d h
  turn-IsWaited asker (client (unregister_wrapper sid)) d h = unregister-IsWaited asker sid d h
  turn-IsWaited asker t d h = calm-IsWaited (turn-IsCalm env t d refl) h

module _ {V P : Type 0} where
  run_from-IsWaited :
      (turns : List (Env V P × Turn V)) (asker : String → Option ℕ) (d : Daemon V P)
      → IsWaited asker d
      → IsWaited (askers asker turns) (run turns d)
  unfolding run
  run_from-IsWaited [] asker d h = h
  run_from-IsWaited ((env, t) ∷ turns) asker d h =
      run_from-IsWaited turns (note t asker) (turn env t d) (turn-IsWaited env asker t d h)

  -- After any turns of the main loop, hook events, client messages, file changes and ticks in any
  -- order, the sessions and the requests are filed under their own ids and only once, and for every
  -- permission request that is pending a waiter is kept, which is the reply channel of the hook that
  -- made the last request of this id.
  pub run-IsWaited :
      (turns : List (Env V P × Turn V)) → IsWaited (askers (λ j. none) turns) (run turns new)
  run-IsWaited turns = run_from-IsWaited turns (λ j. none) new IsWaited-new

  -- When a wrapper leaves, a pending request of its session or of a subagent of it is dropped, but
  -- the hook that waits for it is told nothing and stays in the table of waiters, where no answer to the request reaches it.
  pub unregister_strands_waiter :
      (env env' : Env V P) (sid j decision : String) (suggestion : Option V) (w : ℕ)
      (perm : PendingPermission V) (s : InternalSession) (d : Daemon V P)
      → IsConsistent d.state
      → lookup j d.state.pending_permissions ≡ some perm
      → session_at perm.session_id d.state ≡ some s
      → belongs_to sid perm.session_id s ≡ true
      → lookup j d.permission_waiters ≡ some w
      → (lookup j (handle_unregister_wrapper env sid d).permission_waiters ≡ some w)
        × (decisions (handle_unregister_wrapper env sid d).outputs ≡ decisions d.outputs)
        × (handle_permission_response env' j decision suggestion
              (handle_unregister_wrapper env sid d)
            ≡ handle_unregister_wrapper env sid d)
  unfolding handle_permission_response
  unregister_strands_waiter env env' sid j decision suggestion w perm s d c asked tracked own
        waits =
      let facts = unregister-facts env sid d in
      let gone : lookup j (handle_unregister_wrapper env sid d).state.pending_permissions ≡ none =
        ap (λ st. lookup j st.pending_permissions) facts.state
        ∙ (remove_wrapper_lem sid j d.state c).1
        ∙ rw (asked, tracked, own) refl in
      (
        ap (lookup j) facts.waiters ∙ waits,
        facts.decided,
        rw
            (
              resolve_permission_unknown env'.now j (handle_unregister_wrapper env sid d).state
                  gone,
              handle_permission_response,
            )
            refl,
      )
