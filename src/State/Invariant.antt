-- ===== src/State/Invariant.antt =====
-- The two tables stay well formed: every entry is filed under its own id, and only once.
use agent_dash.Prelude.{
  ℕ, String, ◌≡◌, refl, Option, none, some, List, [], ◌∷◌, arith, ◌==◌, eq_iff, Option-cases,
  Bool-cases, inl, inr, not,
}
use agent_dash.Table.{lookup, remove, retain, IsUnique, contains_key}
use agent_dash.Table.Laws.{
  lookup-insert, lookup-remove, lookup-update, lookup-retain, insert-IsUnique, remove-IsUnique,
  update-IsUnique, retain-IsUnique,
}
use agent_dash.Session.{SessionStatus, needs_input, idle, working, status_eq}
use agent_dash.Protocol.{HookEvent, tool_start, tool_end, stop, session_start, session_end}
use agent_dash.State.{
  DaemonState, InternalSession, PendingPermission, new, fresh_session, change_status, end_tool,
  enter_cwd, session_at, on_session, ensure_session, set_status, apply_hook_event,
  add_permission_request, clear_needs_input, mark_parent, settle, still_pending, clear_parent,
  resolve_permission, remove_sessions, remove_wrapper,
}
use agent_dash.State.Permissions.{without, request}

pub record IsConsistent {V : Type 0} (st : DaemonState V) : Type 0 where
  pub unique_sessions : IsUnique st.sessions
  pub unique_pending : IsUnique st.pending_permissions
  pub own_id : (k : String) (s : InternalSession) → session_at k st ≡ some s → s.session_id ≡ k
  pub own_request :
      (k : String) (p : PendingPermission V)
      → lookup k st.pending_permissions ≡ some p
      → p.request_id ≡ k

module _ {V : Type 0} where
  pub IsConsistent-new : IsConsistent (new {V = V})
  unfolding lookup
  IsConsistent-new = record {
    unique_sessions = tt;
    unique_pending = tt;
    own_id = λ k s e. cc;
    own_request = λ k p e. cc;
  }

  pub on_session-IsConsistent :
      (k : String) (f : InternalSession → InternalSession) (st : DaemonState V)
      → ((s : InternalSession) → (f s).session_id ≡ s.session_id)
      → IsConsistent st
      → IsConsistent (on_session k f st)
  on_session-IsConsistent k f st keeps c = record {
    unique_sessions = update-IsUnique k f st.sessions c.unique_sessions;
    unique_pending = c.unique_pending;
    own_id = λ j s e. elim (Option-cases (session_at j st)) [
      | inl absent ↦ ground (arith, lookup-update k j f st.sessions)
      | inr (s', there) ↦
          ground (arith, lookup-update k j f st.sessions, c.own_id j s' there, keeps s')
    ];
    own_request = c.own_request;
  }

  pub set_status-IsConsistent :
      (now : ℕ) (k : String) (status : SessionStatus) (st : DaemonState V)
      → IsConsistent st
      → IsConsistent (set_status now k status st)
  unfolding set_status
  set_status-IsConsistent now k status st c =
      on_session-IsConsistent k (change_status now status) st (λ s. ground arith) c

  pub ensure_session-IsConsistent :
      (now : ℕ) (k : String) (st : DaemonState V)
      → IsConsistent st
      → IsConsistent (ensure_session now k st)
  unfolding ensure_session
  ensure_session-IsConsistent now k st c = elim (Bool-cases (contains_key k st.sessions)) [
    | inl known ↦ rw known c
    | inr unknown ↦ rw unknown (record {
      unique_sessions = insert-IsUnique k (fresh_session now k) st.sessions c.unique_sessions;
      unique_pending = c.unique_pending;
      own_id = λ j s e.
          ground
            (arith, lookup-insert k j (fresh_session now k) st.sessions, c.own_id j s, eq_iff k j);
      own_request = c.own_request;
    })
  ]

  pub drop_session-IsConsistent :
      (k : String) (st : DaemonState V)
      → IsConsistent st
      → IsConsistent (record {
        sessions = remove k st.sessions;
        pending_permissions = retain (λ _ perm. not (perm.session_id == k)) st.pending_permissions;
      })
  drop_session-IsConsistent k st c = record {
    unique_sessions = remove-IsUnique k st.sessions c.unique_sessions;
    unique_pending = retain-IsUnique _ st.pending_permissions c.unique_pending;
    own_id = λ j s e. ground (arith, lookup-remove k j st.sessions, c.own_id j s);
    own_request = λ j p e. elim (Option-cases (lookup j st.pending_permissions)) [
      | inl absent ↦ ground (
        arith,
        lookup-retain (λ _ perm. not (perm.session_id == k)) j st.pending_permissions
            c.unique_pending,
      )
      | inr (p', there) ↦ ground (
        arith,
        lookup-retain (λ _ perm. not (perm.session_id == k)) j st.pending_permissions
            c.unique_pending,
        c.own_request j p' there,
      )
    ];
  }

  pub apply_hook_event-IsConsistent :
      (now : ℕ) (e : HookEvent) (st : DaemonState V)
      → IsConsistent st
      → IsConsistent (apply_hook_event now e st)
  unfolding apply_hook_event
  apply_hook_event-IsConsistent now (tool_start sid tool detail id) st c =
      set_status-IsConsistent now sid working _
        (on_session-IsConsistent sid _ _ (λ s. refl) (ensure_session-IsConsistent now sid st c))
  apply_hook_event-IsConsistent now (tool_end sid id) st c =
      on_session-IsConsistent sid (end_tool id) st (λ s. ground arith) c
  apply_hook_event-IsConsistent now (stop sid) st c =
      set_status-IsConsistent now sid idle _ (on_session-IsConsistent sid _ _ (λ s. refl) c)
  apply_hook_event-IsConsistent now (session_start sid cwd) st c =
      on_session-IsConsistent sid (enter_cwd cwd) _ (λ s. ground arith)
        (ensure_session-IsConsistent now sid st c)
  apply_hook_event-IsConsistent now (session_end sid) st c = drop_session-IsConsistent sid st c

  clear_needs_input-IsConsistent :
      (now : ℕ) (k : String) (st : DaemonState V)
      → IsConsistent st
      → IsConsistent (clear_needs_input now k st)
  unfolding clear_needs_input
  clear_needs_input-IsConsistent now k st c = elim (Option-cases (session_at k st)) [
    | inl absent ↦ rw (absent, clear_needs_input) c
    | inr (s, there) ↦
        rw (there, clear_needs_input)
          (elim (Bool-cases (status_eq s.status needs_input)) [
            | inl waits ↦ rw waits (set_status-IsConsistent now k idle st c)
            | inr rests ↦ rw rests c
          ])
  ]

  clear_parent-IsConsistent :
      (now : ℕ) (p : Option String) (st : DaemonState V)
      → IsConsistent st
      → IsConsistent (clear_parent now p st)
  clear_parent-IsConsistent now none st c = c
  clear_parent-IsConsistent now (some pid) st c = clear_needs_input-IsConsistent now pid st c

  settle-IsConsistent :
      (now : ℕ) (sid : String) (st : DaemonState V)
      → IsConsistent st
      → IsConsistent (settle now sid st)
  unfolding settle
  settle-IsConsistent now sid st c = elim (Bool-cases (still_pending sid st)) [
    | inl more ↦ rw more c
    | inr last ↦
        rw last (clear_parent-IsConsistent now _ _ (clear_needs_input-IsConsistent now sid st c))
  ]

  without-IsConsistent :
      (rid : String) (st : DaemonState V) → IsConsistent st → IsConsistent (without rid st)
  without-IsConsistent rid st c = record {
    unique_sessions = c.unique_sessions;
    unique_pending = remove-IsUnique rid st.pending_permissions c.unique_pending;
    own_id = c.own_id;
    own_request =
        λ j p e. ground (arith, lookup-remove rid j st.pending_permissions, c.own_request j p);
  }

  pub resolve_permission-IsConsistent :
      (now : ℕ) (rid : String) (st : DaemonState V)
      → IsConsistent st
      → IsConsistent (resolve_permission now rid st).1
  unfolding resolve_permission
  resolve_permission-IsConsistent now rid st c =
      elim (Option-cases (lookup rid st.pending_permissions)) [
        | inl absent ↦ rw (absent, resolve_permission) c
        | inr (perm, there) ↦
            rw (there, resolve_permission)
              (settle-IsConsistent now perm.session_id _ (without-IsConsistent rid st c))
      ]

  mark_parent-IsConsistent :
      (now : ℕ) (p : Option String) (st : DaemonState V)
      → IsConsistent st
      → IsConsistent (mark_parent now p st)
  mark_parent-IsConsistent now none st c = c
  mark_parent-IsConsistent now (some pid) st c = set_status-IsConsistent now pid needs_input st c

  pub add_permission_request-IsConsistent :
      (now : ℕ) (sid rid tool detail : String) (suggestions : List V) (st : DaemonState V)
      → IsConsistent st
      → IsConsistent (add_permission_request now sid rid tool detail suggestions st)
  unfolding add_permission_request
  add_permission_request-IsConsistent now sid rid tool detail suggestions st c =
      let perm : PendingPermission V = request sid rid tool detail suggestions in
      mark_parent-IsConsistent now _ _ (
        set_status-IsConsistent now sid needs_input _ (record {
          unique_sessions = c.unique_sessions;
          unique_pending = insert-IsUnique rid perm st.pending_permissions c.unique_pending;
          own_id = c.own_id;
          own_request = λ j p e. ground (
            arith,
            lookup-insert rid j perm st.pending_permissions,
            c.own_request j p,
            eq_iff rid j,
          );
        }))

  remove_sessions-IsConsistent :
      (ids : List String) (st : DaemonState V)
      → IsConsistent st
      → IsConsistent (remove_sessions ids st)
  unfolding remove_sessions
  remove_sessions-IsConsistent [] st c = c
  remove_sessions-IsConsistent (id ∷ ids) st c =
      remove_sessions-IsConsistent ids _ (drop_session-IsConsistent id st c)

  pub remove_wrapper-IsConsistent :
      (wrapper : String) (st : DaemonState V)
      → IsConsistent st
      → IsConsistent (remove_wrapper wrapper st)
  unfolding remove_wrapper
  remove_wrapper-IsConsistent wrapper st c = remove_sessions-IsConsistent _ st c

-- A call of a method that changes the state.
pub data Call (V : Type 0) : Type 0 where
  ensure : (session_id : String) → Call V
  status : (session_id : String) (new_status : SessionStatus) → Call V
  hook : HookEvent → Call V
  add : (session_id request_id tool detail : String) (suggestions : List V) → Call V
  resolve : (request_id : String) → Call V
  unwrap : (wrapper_id : String) → Call V

module _ {V : Type 0} where
  pub step : ℕ → Call V → DaemonState V → DaemonState V
  step now (ensure sid) st = ensure_session now sid st
  step now (status sid new_status) st = set_status now sid new_status st
  step now (hook e) st = apply_hook_event now e st
  step now (add sid rid tool detail suggestions) st =
      add_permission_request now sid rid tool detail suggestions st
  step now (resolve rid) st = (resolve_permission now rid st).1
  step now (unwrap wrapper) st = remove_wrapper wrapper st

  pub run : List (ℕ × Call V) → DaemonState V → DaemonState V
  run [] st = st
  run ((now, call) ∷ calls) st = run calls (step now call st)

  step-IsConsistent :
      (now : ℕ) (call : Call V) (st : DaemonState V)
      → IsConsistent st
      → IsConsistent (step now call st)
  unfolding step
  step-IsConsistent now (ensure sid) st c = ensure_session-IsConsistent now sid st c
  step-IsConsistent now (status sid new_status) st c =
      set_status-IsConsistent now sid new_status st c
  step-IsConsistent now (hook e) st c = apply_hook_event-IsConsistent now e st c
  step-IsConsistent now (add sid rid tool detail suggestions) st c =
      add_permission_request-IsConsistent now sid rid tool detail suggestions st c
  step-IsConsistent now (resolve rid) st c = resolve_permission-IsConsistent now rid st c
  step-IsConsistent now (unwrap wrapper) st c = remove_wrapper-IsConsistent wrapper st c

  run_from-IsConsistent :
      (calls : List (ℕ × Call V)) (st : DaemonState V)
      → IsConsistent st
      → IsConsistent (run calls st)
  unfolding run
  run_from-IsConsistent [] st c = c
  run_from-IsConsistent ((now, call) ∷ calls) st c =
      run_from-IsConsistent calls (step now call st) (step-IsConsistent now call st c)

  -- After any sequence of calls on the empty state, every session is filed under its own id and
  -- every request under its own, and no key of either table has two entries.
  pub run-IsConsistent : (calls : List (ℕ × Call V)) → IsConsistent (run calls new)
  run-IsConsistent calls = run_from-IsConsistent calls new IsConsistent-new
