-- ===== src/State/View/Listing.antt =====
-- What `to_dash_sessions` and `to_all_dash_sessions` list, and in which order.
use Prim.Native.Nat.{Ordering}
use Prim.Native.String.{compare}
use mathlib.Core.List.{Perm}
use agent_dash.Prelude.{
  ◌<◌, String, ◌≡◌, refl, ◌∙◌, ap, Bool, true, false, ◌||◌, some, List, [], ◌∷◌, arith, length, map,
  is_some, find, Bool-cases, inl, inr, ◌⊎◌, ◌↔◌, filter, if◌then◌else◌,
}
use agent_dash.Table.{Table, lookup, values, any_entry}
use agent_dash.Table.Laws.{any_entry-lookup, lookup_of_any_entry}
use agent_dash.Session.{DashSession, as_str, sort_key, idle, needs_input}
use agent_dash.State.{DaemonState, InternalSession, PendingPermission}
use agent_dash.State.Invariant.{IsConsistent}
use agent_dash.State.View.{
  build_dash_sessions, subagent_counts, dash_session, shown, sort_sessions, place, session_cmp,
  concerns, input_reason,
}
use agent_dash.State.View.Counts.{children, subagent_count-dash_session}
use agent_dash.State.View.Order.{IsSorted, sort_sessions-IsSorted, sort_sessions-perm}

-- the sessions that a list is about
abbrev pub selected : (include_subagents : Bool) → List InternalSession → List InternalSession
selected true ss = ss
selected false [] = []
selected false (s ∷ ss) = if s.is_main then s ∷ selected false ss else selected false ss

filter-selected :
    (all : Bool) (ss : List InternalSession) → filter (λ s. all || s.is_main) ss ≡ selected all ss
filter-selected true [] = refl
filter-selected true (s ∷ ss) = ap (λ rest. s ∷ rest) (filter-selected true ss)
filter-selected false [] = refl
filter-selected false (s ∷ ss) = ground (arith, filter-selected false ss)

module _ {V : Type 0} (st : DaemonState V) where
  shown-selected : (all : Bool) → shown all st ≡ selected all (values st.sessions)
  shown-selected all = filter-selected all (values st.sessions)

  -- the entry of a session, with the number of its children counted afresh
  abbrev pub entry : InternalSession → DashSession
  entry s = record (dash_session st [] s) {
    subagent_count = length (children s.session_id (values st.sessions));
  }

  dash_session-eq-entry :
      (s : InternalSession) → dash_session st (subagent_counts (values st.sessions) []) s ≡ entry s
  unfolding dash_session
  dash_session-eq-entry s =
      ap (λ n. record (dash_session st [] s) { subagent_count = n })
        (subagent_count-dash_session st s)

  pub map-entry :
      (ss : List InternalSession)
      → map (dash_session st (subagent_counts (values st.sessions) [])) ss ≡ map entry ss
  map-entry [] = refl
  map-entry (s ∷ ss) = cc (dash_session-eq-entry s, map-entry ss)

  -- The list holds one entry for each main session, or for each session if subagents are asked for,
  -- and no other; an entry carries the number of the session's children, and the list is in order
  -- of the status text and then of the session id.
  pub build_dash_sessions_lem :
      (include_subagents : Bool)
      → IsSorted (build_dash_sessions include_subagents st)
        × Perm
            (build_dash_sessions include_subagents st)
            (map entry (selected include_subagents (values st.sessions)))
  unfolding build_dash_sessions
  build_dash_sessions_lem include_subagents = (
    sort_sessions-IsSorted _,
    rw (← shown-selected include_subagents, ← map-entry (shown include_subagents st))
        (sort_sessions-perm _),
  )

  any-find :
      (p : PendingPermission V → Bool) (m : Table (PendingPermission V))
      → is_some (find p (values m)) ≡ any_entry (λ _ q. p q) m
  any-find p [] = refl
  any-find p ((k, q) ∷ m) = ground (arith, any-find p m)

  -- some pending request is the session's own, or that of a session whose parent it is
  abbrev pub Requested : String → Type 0
  Requested id =
      (rid : String) × (p : PendingPermission V) × (lookup rid st.pending_permissions ≡ some p)
      × (concerns st id p ≡ true)

  is_some-input_reason :
      (s : InternalSession)
      → is_some (input_reason st s) ≡ (
          s.has_pending_question
          || any_entry (λ _ q. concerns st s.session_id q) st.pending_permissions)
  unfolding input_reason
  is_some-input_reason s =
      ground (arith, any-find (concerns st s.session_id) st.pending_permissions)

  -- A listed session shows a reason to need input exactly when it has an open question, or some
  -- pending request is its own or that of a session whose parent it is.
  pub input_reason_iff :
      (s : InternalSession)
      → IsConsistent st
      → ((s.has_pending_question ≡ true) ⊎ Requested s.session_id)
        ↔ (is_some (input_reason st s) ≡ true)
  input_reason_iff s c = (
    elim [
      | inl asks ↦ is_some-input_reason s ∙ rw asks refl
      | inr (rid, p, found, its) ↦
          is_some-input_reason s
          ∙ ground (
            arith,
            any_entry-lookup (λ _ q. concerns st s.session_id q) rid p st.pending_permissions found
                its,
          )
    ],
    λ e. elim (Bool-cases s.has_pending_question) [
      | inl asks ↦ inl asks
      | inr silent ↦ inr (
          lookup_of_any_entry (λ _ q. concerns st s.session_id q) st.pending_permissions
            c.unique_pending (ground (arith, is_some-input_reason s)))
    ],
  )

texts_up : compare (as_str idle) (as_str needs_input) ≡ Ordering.lt
unfolding as_str
texts_up = refl

texts_down : compare (as_str needs_input) (as_str idle) ≡ Ordering.gt
unfolding as_str
texts_down = refl

-- A session that is idle is listed before one that needs input, although the sort key of the latter
-- is the smaller: the status is compared as text.
pub idle_before_needs_input :
    (a b : DashSession)
    → a.status ≡ as_str idle
    → b.status ≡ as_str needs_input
    → (sort_sessions (a ∷ b ∷ []) ≡ a ∷ b ∷ [])
      × (sort_sessions (b ∷ a ∷ []) ≡ a ∷ b ∷ [])
      × (sort_key needs_input < sort_key idle)
unfolding sort_sessions place session_cmp sort_key
idle_before_needs_input a b ha hb =
    let up : compare a.status b.status ≡ Ordering.lt = cc texts_up in
    let down : compare b.status a.status ≡ Ordering.gt = cc texts_down in ground (arith, up, down)
