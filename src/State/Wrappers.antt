-- ===== src/State/Wrappers.antt =====
-- `remove_wrapper`: a wrapper leaves with its subagents and with the requests of all of them.
use agent_dash.Prelude.{
  String, ◌≡◌, refl, Bool, false, Option, none, some, List, [], ◌∷◌, arith, ◌==◌, eq_iff,
  if◌then◌else◌, any, not, Bool-cases, Option-cases, inl, inr,
}
use agent_dash.Table.{Table, lookup, remove, retain, IsUnique}
use agent_dash.Table.Laws.{lookup-remove, lookup-retain, keep_if, retain-IsUnique}
use agent_dash.State.{
  DaemonState, InternalSession, session_at, belongs_to, wrapper_sessions, remove_sessions,
  remove_wrapper,
}
use agent_dash.State.Invariant.{IsConsistent}

abbrev member : String → List String → Bool
member j = any λ i. i == j

-- whether a tracked session goes with the wrapper
abbrev pub goes : String → String → Option InternalSession → Bool
goes wrapper j none = false
goes wrapper j (some s) = belongs_to wrapper j s

member-wrapper_sessions_absent :
    (wrapper j : String) (m : Table InternalSession)
    → lookup j m ≡ none
    → member j (wrapper_sessions wrapper m) ≡ false
unfolding wrapper_sessions lookup
member-wrapper_sessions_absent wrapper j [] e = refl
member-wrapper_sessions_absent wrapper j ((i, s) ∷ m) e =
    ground (arith, member-wrapper_sessions_absent wrapper j m, eq_iff i j)

member-wrapper_sessions :
    (wrapper j : String) (m : Table InternalSession)
    → IsUnique m
    → member j (wrapper_sessions wrapper m) ≡ goes wrapper j (lookup j m)
unfolding wrapper_sessions lookup
member-wrapper_sessions wrapper j [] u = refl
member-wrapper_sessions wrapper j ((i, s) ∷ m) u = elim (Bool-cases (i == j)) [
  | inl same ↦ ground (arith, member-wrapper_sessions_absent wrapper j m, eq_iff i j)
  | inr other ↦ ground (arith, member-wrapper_sessions wrapper j m u.1)
]

module _ {V : Type 0} where
  session_at-remove_sessions :
      (ids : List String) (j : String) (st : DaemonState V)
      → session_at j (remove_sessions ids st) ≡ (if member j ids then none else session_at j st)
  unfolding remove_sessions
  session_at-remove_sessions [] j st = refl
  session_at-remove_sessions (id ∷ ids) j st = ground (
    arith,
    session_at-remove_sessions ids j (record {
      sessions = remove id st.sessions;
      pending_permissions = retain (λ _ perm. not (perm.session_id == id)) st.pending_permissions;
    }),
    lookup-remove id j st.sessions,
  )

  pending-remove_sessions :
      (ids : List String) (j : String) (st : DaemonState V)
      → IsUnique st.pending_permissions
      → lookup j (remove_sessions ids st).pending_permissions
        ≡ keep_if (λ p. not (member p.session_id ids)) (lookup j st.pending_permissions)
  unfolding remove_sessions
  pending-remove_sessions [] j st u = ground arith
  pending-remove_sessions (id ∷ ids) j st u =
      let st' : DaemonState V = record {
        sessions = remove id st.sessions;
        pending_permissions = retain (λ _ perm. not (perm.session_id == id)) st.pending_permissions;
      } in
      let rest = pending-remove_sessions ids j st' (retain-IsUnique _ st.pending_permissions u) in
      let first =
        lookup-retain (λ _ perm. not (perm.session_id == id)) j st.pending_permissions u in
      elim (Option-cases (lookup j st.pending_permissions)) [
        | inl absent ↦ ground (arith, rest, first)
        | inr (p, there) ↦
            ground (arith, rest, first, eq_iff p.session_id id, eq_iff id p.session_id)
      ]

  -- After a wrapper is removed, its session and its subagents' are gone, with every request of
  -- theirs; all other sessions and requests are left as they were.
  pub remove_wrapper_lem :
      (wrapper j : String) (st : DaemonState V)
      → IsConsistent st
      → (session_at j (remove_wrapper wrapper st)
          ≡ (if goes wrapper j (session_at j st) then none else session_at j st))
        × (lookup j (remove_wrapper wrapper st).pending_permissions
            ≡ keep_if
                (λ p. not (goes wrapper p.session_id (session_at p.session_id st)))
                (lookup j st.pending_permissions))
  unfolding remove_wrapper
  remove_wrapper_lem wrapper j st c =
      let ids = wrapper_sessions wrapper st.sessions in
      (
        ground (
          arith,
          session_at-remove_sessions ids j st,
          member-wrapper_sessions wrapper j st.sessions c.unique_sessions,
        ),
        elim (Option-cases (lookup j st.pending_permissions)) [
          | inl absent ↦ ground (arith, pending-remove_sessions ids j st c.unique_pending)
          | inr (p, there) ↦ ground (
            arith,
            pending-remove_sessions ids j st c.unique_pending,
            member-wrapper_sessions wrapper p.session_id st.sessions c.unique_sessions,
          )
        ],
      )
