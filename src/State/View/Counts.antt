-- ===== src/State/View/Counts.antt =====
-- The subagent counts that clients are shown are the numbers of children.
use agent_dash.Prelude.{
  ℕ, ◌+◌, String, ◌≡◌, refl, ◌∙◌, Option, none, some, List, [], ◌∷◌, arith, eq_iff, if◌then◌else◌,
  unwrap_or, length, filter,
}
use agent_dash.Table.{Table, lookup, values}
use agent_dash.Table.Laws.{lookup-insert}
use agent_dash.State.{DaemonState, InternalSession, is_opt_str}
use agent_dash.State.View.{count_one, subagent_counts, dash_session}

-- the tracked sessions whose parent is the wrapper
abbrev pub children : String → List InternalSession → List InternalSession
children id = filter λ s. is_opt_str s.parent_wrapper_id id

abbrev count_at : String → Table ℕ → ℕ
count_at id counts = unwrap_or (lookup id counts) 0

count_at-count_one :
    (id : String) (parent : Option String) (counts : Table ℕ)
    → count_at id (count_one parent counts)
      ≡ (if is_opt_str parent id then count_at id counts + 1 else count_at id counts)
unfolding count_one
count_at-count_one id none counts = refl
count_at-count_one id (some parent) counts = ground (
  arith,
  lookup-insert parent id (unwrap_or (lookup parent counts) 0 + 1) counts,
  eq_iff parent id,
)

count_at-subagent_counts :
    (id : String) (ss : List InternalSession) (counts : Table ℕ)
    → count_at id (subagent_counts ss counts) ≡ count_at id counts + length (children id ss)
unfolding subagent_counts
count_at-subagent_counts id [] counts = omega arith
count_at-subagent_counts id (s ∷ ss) counts = ground (
  arith,
  count_at-subagent_counts id ss (count_one s.parent_wrapper_id counts),
  count_at-count_one id s.parent_wrapper_id counts,
)

module _ {V : Type 0} where
  pub subagent_count-dash_session :
      (st : DaemonState V) (s : InternalSession)
      → (dash_session st (subagent_counts (values st.sessions) []) s).subagent_count
        ≡ length (children s.session_id (values st.sessions))
  unfolding dash_session lookup
  subagent_count-dash_session st s =
      count_at-subagent_counts s.session_id (values st.sessions) [] ∙ (omega arith)
