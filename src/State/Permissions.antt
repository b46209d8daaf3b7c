-- ===== src/State/Permissions.antt =====
-- Permission requests: which sessions need input after a request is added or resolved.
use agent_dash.Prelude.{
  ℕ, String, ◌≡◌, refl, ◌∙◌, ◌≢◌, Bool, false, ◌||◌, Option, none, some, List, [], ◌∷◌, ◌&&◌, not,
  map_option, arith, ◌==◌, eq_iff, if◌then◌else◌, Option-cases, Bool-cases, inl, inr,
}
use agent_dash.Table.{Table, lookup, contains_key, insert, remove, any_entry}
use agent_dash.Table.Laws.{lookup-insert, lookup-remove}
use agent_dash.Session.{SessionStatus, needs_input, idle, status_eq}
use agent_dash.State.{
  DaemonState, InternalSession, PendingPermission, session_at, set_status, add_permission_request,
  clear_needs_input, parent_of, mark_parent, settle, still_pending, clear_parent,
  resolve_permission, is_opt_str,
}
use agent_dash.State.Effects.{session_at-set_status, session_at-clear_needs_input}

abbrev pub needs_answer : Option InternalSession → Bool
needs_answer none = false
needs_answer (some s) = status_eq s.status needs_input

-- a session that needs input no more: idle from now on, and as before if it did not need any
abbrev pub relieved : ℕ → InternalSession → InternalSession
relieved now s =
    if status_eq s.status needs_input
    then record s { status = idle; last_status_change = now }
    else s

module _ {V : Type 0} where
  -- whether the session is shown as needing input
  abbrev pub waiting : String → DaemonState V → Bool
  waiting k st = needs_answer (session_at k st)

  waiting-set_status :
      (now : ℕ) (k j : String) (st : DaemonState V)
      → waiting j (set_status now k needs_input st)
        ≡ (if k == j then contains_key j st.sessions else waiting j st)
  waiting-set_status now k j st = ground (arith, session_at-set_status now k j needs_input st)

  waiting-clear :
      (now : ℕ) (k j : String) (st : DaemonState V)
      → waiting j (clear_needs_input now k st) ≡ (if k == j then false else waiting j st)
  waiting-clear now k j st = ground (arith, session_at-clear_needs_input now k j st)

  parent_of-clear :
      (now : ℕ) (k j : String) (st : DaemonState V)
      → parent_of j (clear_needs_input now k st) ≡ parent_of j st
  parent_of-clear now k j st = ground (arith, session_at-clear_needs_input now k j st)

  parent_of-set_status :
      (now : ℕ) (k j : String) (new : SessionStatus) (st : DaemonState V)
      → parent_of j (set_status now k new st) ≡ parent_of j st
  parent_of-set_status now k j new st = ground (arith, session_at-set_status now k j new st)

  cleared-both :
      (now : ℕ) (sid j : String) (st : DaemonState V)
      → session_at j (
          clear_parent now
            (parent_of sid (clear_needs_input now sid st))
            (clear_needs_input now sid st))
        ≡ (if sid == j || is_opt_str (parent_of sid st) j
            then map_option (relieved now) (session_at j st)
            else session_at j st)
  cleared-both now sid j st =
      rw (parent_of-clear now sid sid st) (elim (Option-cases (parent_of sid st)) [
        | inl alone ↦ rw alone (ground (arith, session_at-clear_needs_input now sid j st))
        | inr (pid, e) ↦ rw e (
            ground (
              arith,
              session_at-clear_needs_input now pid j (clear_needs_input now sid st),
              session_at-clear_needs_input now sid j st,
            ))
      ])

  session_at-settle :
      (now : ℕ) (sid j : String) (st : DaemonState V)
      → session_at j (settle now sid st) ≡ (
          if still_pending sid st
          then session_at j st
          else if sid == j || is_opt_str (parent_of sid st) j
          then map_option (relieved now) (session_at j st)
          else session_at j st)
  unfolding settle
  session_at-settle now sid j st = elim (Bool-cases (still_pending sid st)) [
    | inl more ↦ rw more refl
    | inr last ↦ rw last (cleared-both now sid j st)
  ]

  pending-clear :
      (now : ℕ) (k : String) (st : DaemonState V)
      → (clear_needs_input now k st).pending_permissions ≡ st.pending_permissions
  unfolding clear_needs_input set_status
  pending-clear now k st = ground arith

  pending-settle :
      (now : ℕ) (sid : String) (st : DaemonState V)
      → (settle now sid st).pending_permissions ≡ st.pending_permissions
  unfolding settle
  pending-settle now sid st = elim (Bool-cases (still_pending sid st)) [
    | inl more ↦ rw more refl
    | inr last ↦ rw last (elim (Option-cases (parent_of sid (clear_needs_input now sid st))) [
      | inl alone ↦ rw alone (pending-clear now sid st)
      | inr (pid, e) ↦
          rw e (pending-clear now pid (clear_needs_input now sid st) ∙ pending-clear now sid st)
    ])
  ]

  -- the state once a request is taken out of the table, before the statuses are settled
  abbrev pub without : String → DaemonState V → DaemonState V
  without rid st = record st { pending_permissions = remove rid st.pending_permissions }

  -- some request other than `rid` is pending for the session
  abbrev pub asked_besides : (rid sid : String) → DaemonState V → Bool
  asked_besides rid sid st =
      any_entry (λ id p. not (rid == id) && p.session_id == sid) st.pending_permissions

  any_entry-remove :
      (rid sid : String) (m : Table (PendingPermission V))
      → any_entry (λ _ p. p.session_id == sid) (remove rid m)
        ≡ any_entry (λ id p. not (rid == id) && p.session_id == sid) m
  unfolding remove
  any_entry-remove rid sid [] = refl
  any_entry-remove rid sid ((id, p) ∷ m) =
      ground (arith, any_entry-remove rid sid m, eq_iff id rid, eq_iff rid id)

  -- A request that is pending is returned and is pending no more, and every other stays pending. If
  -- another request of the same session is pending, every session stays as it is. Otherwise the
  -- session and its parent wrapper, where they are tracked and are shown as needing input, are shown
  -- as idle from now on, and every other session, and these two in any other status, stay as they
  -- are.
  pub resolve_permission_pending :
      (now : ℕ) (rid j : String) (perm : PendingPermission V) (st : DaemonState V)
      → lookup rid st.pending_permissions ≡ some perm
      → ((resolve_permission now rid st).0 ≡ some perm)
        × (lookup j (resolve_permission now rid st).1.pending_permissions
            ≡ (if rid == j then none else lookup j st.pending_permissions))
        × (session_at j (resolve_permission now rid st).1 ≡ (
            if asked_besides rid perm.session_id st
            then session_at j st
            else if perm.session_id == j || is_opt_str (parent_of perm.session_id st) j
            then map_option (relieved now) (session_at j st)
            else session_at j st))
  unfolding resolve_permission
  resolve_permission_pending now rid j perm st found =
      rw (found, resolve_permission)
        (
          refl,
          rw (pending-settle now perm.session_id (without rid st))
              (lookup-remove rid j st.pending_permissions),
          rw (← any_entry-remove rid perm.session_id st.pending_permissions)
              (session_at-settle now perm.session_id j (without rid st)),
        )

  -- An answer to a request that is not pending changes nothing and returns none.
  pub resolve_permission_unknown :
      (now : ℕ) (rid : String) (st : DaemonState V)
      → lookup rid st.pending_permissions ≡ none
      → resolve_permission now rid st ≡ (none, st)
  unfolding resolve_permission
  resolve_permission_unknown now rid st missing = rw (missing, resolve_permission)

  pending-mark_parent :
      (now : ℕ) (p : Option String) (st : DaemonState V)
      → (mark_parent now p st).pending_permissions ≡ st.pending_permissions
  unfolding set_status
  pending-mark_parent now none st = refl
  pending-mark_parent now (some pid) st = refl

  contains_key-set_status :
      (now : ℕ) (k j : String) (new : SessionStatus) (st : DaemonState V)
      → contains_key j (set_status now k new st).sessions ≡ contains_key j st.sessions
  contains_key-set_status now k j new st = ground (arith, session_at-set_status now k j new st)

  waiting-mark_parent :
      (now : ℕ) (p : Option String) (j : String) (st : DaemonState V)
      → waiting j (mark_parent now p st)
        ≡ (if is_opt_str p j then contains_key j st.sessions else waiting j st)
  waiting-mark_parent now none j st = refl
  waiting-mark_parent now (some pid) j st = waiting-set_status now pid j st

  -- The table entry that `add_permission_request` inserts.
  abbrev pub request : (sid rid tool detail : String) → List V → PendingPermission V
  request sid rid tool detail suggestions = record {
    request_id = rid;
    session_id = sid;
    tool = tool;
    detail = detail;
    suggestions = suggestions;
  }

  pub pending-add :
      (now : ℕ) (sid rid tool detail j : String) (suggestions : List V) (st : DaemonState V)
      → lookup j (add_permission_request now sid rid tool detail suggestions st).pending_permissions
        ≡ (if rid == j
            then some (request sid rid tool detail suggestions)
            else lookup j st.pending_permissions)
  unfolding add_permission_request set_status
  pending-add now sid rid tool detail j suggestions st =
      rw
        (pending-mark_parent now (parent_of sid (set_status now sid needs_input st'))
          (set_status now sid needs_input st'))
        (lookup-insert rid j (request sid rid tool detail suggestions) st.pending_permissions)
    where
      st' : DaemonState V
      st' = record st {
        pending_permissions =
            insert rid (request sid rid tool detail suggestions) st.pending_permissions;
      }

  waiting-add :
      (now : ℕ) (sid rid tool detail j : String) (suggestions : List V) (st : DaemonState V)
      → waiting j (add_permission_request now sid rid tool detail suggestions st) ≡ (
          if sid == j || is_opt_str (parent_of sid st) j
          then contains_key j st.sessions
          else waiting j st)
  unfolding add_permission_request
  waiting-add now sid rid tool detail j suggestions st = ground (
    arith,
    waiting-mark_parent now (parent_of sid (set_status now sid needs_input st')) j
        (set_status now sid needs_input st'),
    parent_of-set_status now sid sid needs_input st',
    contains_key-set_status now sid j needs_input st',
    waiting-set_status now sid j st',
  )
    where
      st' : DaemonState V
      st' = record st {
        pending_permissions =
            insert rid (request sid rid tool detail suggestions) st.pending_permissions;
      }

  -- Adding a request makes it pending under its id and leaves the other requests. Its session and
  -- the parent wrapper of that need input if they are tracked; every other session is shown as
  -- before.
  pub add_permission_request_lem :
      (now : ℕ) (sid rid tool detail j : String) (suggestions : List V) (st : DaemonState V)
      → (lookup j
            (add_permission_request now sid rid tool detail suggestions st).pending_permissions
          ≡ (if rid == j
              then some (request sid rid tool detail suggestions)
              else lookup j st.pending_permissions))
        × (waiting j (add_permission_request now sid rid tool detail suggestions st) ≡ (
            if sid == j || is_opt_str (parent_of sid st) j
            then contains_key j st.sessions
            else waiting j st))
  add_permission_request_lem now sid rid tool detail j suggestions st = (
    pending-add now sid rid tool detail j suggestions st,
    waiting-add now sid rid tool detail j suggestions st,
  )

  -- Resolving one subagent's last request shows the shared parent wrapper as not needing input,
  -- although a request of another subagent of the same wrapper is still pending.
  pub resolve_hides_sibling :
      (now : ℕ) (rid rid' wrapper : String) (perm perm' : PendingPermission V) (st : DaemonState V)
      → lookup rid st.pending_permissions ≡ some perm
      → lookup rid' st.pending_permissions ≡ some perm'
      → rid ≢ rid'
      → parent_of perm.session_id st ≡ some wrapper
      → parent_of perm'.session_id st ≡ some wrapper
      → still_pending perm.session_id (without rid st) ≡ false
      → (lookup rid' (resolve_permission now rid st).1.pending_permissions ≡ some perm')
        × (waiting wrapper (resolve_permission now rid st).1 ≡ false)
  resolve_hides_sibling now rid rid' wrapper perm perm' st found found' ne parent parent' last =
      let (_, kept, _) = resolve_permission_pending now rid rid' perm st found in
      let (_, _, shown) = resolve_permission_pending now rid wrapper perm st found in
      let last' = any_entry-remove rid perm.session_id st.pending_permissions in
      (ground (arith, eq_iff rid rid'), ground (arith, last', shown, eq_iff wrapper wrapper))
