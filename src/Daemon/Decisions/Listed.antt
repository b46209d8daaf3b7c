-- ===== src/Daemon/Decisions/Listed.antt =====
-- Which requests a hook event resolves, and which are kept when it is applied.
use agent_dash.Prelude.{
  ℕ, String, Bool, true, false, ◌≡◌, refl, some, List, [], ◌∷◌, arith, ◌==◌, not, any, eq_iff,
}
use agent_dash.Table.{IsUnique, Table, contains_key, lookup}
use agent_dash.Table.Laws.{lookup-retain, keep_if}
use agent_dash.Protocol.{
  HookEvent, tool_start, tool_end, stop, session_start, session_end, event_session,
}
use agent_dash.State.{DaemonState, PendingPermission, apply_hook_event, ensure_session, set_status}
use agent_dash.State.Invariant.{IsConsistent}
use agent_dash.Daemon.Hook.{pending_ids}

abbrev pub listed : String → List String → Bool
listed j = any λ i. i == j

pub listed-pending_ids :
    {V : Type 0} (sid j : String) (p : PendingPermission V) (m : Table (PendingPermission V))
    → lookup j m ≡ some p
    → (p.session_id == sid) ≡ true
    → listed j (pending_ids sid m) ≡ true
unfolding pending_ids lookup
listed-pending_ids sid j p [] e h = ground arith
listed-pending_ids sid j p ((i, q) ∷ m) e h =
    ground (arith, listed-pending_ids sid j p m, eq_iff i j)

not_listed :
    {V : Type 0} (sid j : String) (m : Table (PendingPermission V))
    → contains_key j m ≡ false
    → listed j (pending_ids sid m) ≡ false
unfolding pending_ids lookup
not_listed sid j [] h = refl
not_listed sid j ((i, q) ∷ m) h = ground (arith, not_listed sid j m)

pub listed_of_pending_ids :
    {V : Type 0} (sid j : String) (p : PendingPermission V) (m : Table (PendingPermission V))
    → IsUnique m
    → lookup j m ≡ some p
    → (p.session_id == sid) ≡ false
    → listed j (pending_ids sid m) ≡ false
unfolding pending_ids lookup
listed_of_pending_ids sid j p [] u e h = ground arith
listed_of_pending_ids sid j p ((i, q) ∷ m) u e h =
    ground (arith, listed_of_pending_ids sid j p m u.1, not_listed sid j m, eq_iff i j)

-- the requests that are kept when an event is applied
abbrev pub keeps : {V : Type 0} → HookEvent → PendingPermission V → Bool
keeps (session_end sid) p = not (p.session_id == sid)
keeps (tool_start _ _ _ _) p = true
keeps (tool_end _ _) p = true
keeps (stop _) p = true
keeps (session_start _ _) p = true

pub pending-apply_hook_event :
    {V : Type 0} (now : ℕ) (e : HookEvent) (j : String) (st : DaemonState V)
    → IsConsistent st
    → lookup j (apply_hook_event now e st).pending_permissions
      ≡ keep_if (keeps e) (lookup j st.pending_permissions)
unfolding apply_hook_event ensure_session set_status
pending-apply_hook_event now (tool_start sid tool detail id) j st c = ground arith
pending-apply_hook_event now (tool_end sid id) j st c = ground arith
pending-apply_hook_event now (stop sid) j st c = ground arith
pending-apply_hook_event now (session_start sid cwd) j st c = ground arith
pending-apply_hook_event now (session_end sid) j st c =
    lookup-retain (λ _ perm. not (perm.session_id == sid)) j st.pending_permissions c.unique_pending

pub kept_event :
    {V : Type 0} (e : HookEvent) (p : PendingPermission V)
    → (p.session_id == event_session e) ≡ false
    → keep_if (keeps e) (some p) ≡ some p
kept_event (session_end sid) p h = ground arith
kept_event (tool_start _ _ _ _) p h = refl
kept_event (tool_end _ _) p h = refl
kept_event (stop _) p h = refl
kept_event (session_start _ _) p h = refl
