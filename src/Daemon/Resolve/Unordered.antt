-- ===== src/Daemon/Resolve/Unordered.antt =====
-- What a truncated id resolves to does not depend on the order in which a map is iterated.
use agent_dash.Prelude.{
  String, Bool, ◌≡◌, refl, ap, sym, ◌∙◌, none, some, [], ◌∷◌, is_empty, if◌then◌else◌,
}
use text.Mathlib.Text.{starts_with}
use agent_dash.Table.{Table}
use agent_dash.Table.Reordered.{
  Reordered, same, swap, cons, trans, lookup-Reordered, is_empty-Reordered, filter-Reordered,
}
use agent_dash.State.{DaemonState, InternalSession}
use agent_dash.Daemon.Resolve.{the_only, with_prefix, find_wrapper_tx, resolve_session_key}

module _ {ℓ} {A : Type ℓ} where
  the_only-cons :
      (a : String × A) (m : Table A) → the_only (a ∷ m) ≡ (if is_empty m then some a else none)
  the_only-cons a [] = refl
  the_only-cons a (b ∷ m) = refl

  the_only-Reordered : {m m' : Table A} → Reordered m m' → the_only m ≡ the_only m'
  the_only-Reordered (same m) = refl
  the_only-Reordered (swap a b m h) = refl
  the_only-Reordered (cons a {m} {m'} r) =
      the_only-cons a m
      ∙ ap (λ (b : Bool). if b then some a else none) (is_empty-Reordered r)
      ∙ sym (the_only-cons a m')
  the_only-Reordered (trans r s) = the_only-Reordered r ∙ the_only-Reordered s

  the_only-with_prefix :
      (id : String) {m m' : Table A}
      → Reordered m m'
      → the_only (with_prefix id m) ≡ the_only (with_prefix id m')
  the_only-with_prefix id r = the_only-Reordered (filter-Reordered (λ e. starts_with e.0 id) r)

  pub find_wrapper_tx-Reordered :
      (id : String) {m m' : Table A} → Reordered m m' → find_wrapper_tx id m ≡ find_wrapper_tx id m'
  unfolding find_wrapper_tx
  find_wrapper_tx-Reordered id r = rw (lookup-Reordered id r, the_only-with_prefix id r) refl

module _ {V : Type 0} where
  -- Two states whose session tables differ in the order of their entries alone resolve every id to the
  -- same session, or neither to any.
  pub resolve_session_key-Reordered :
      (id : String) (st : DaemonState V) {m m' : Table InternalSession}
      → Reordered m m'
      → resolve_session_key id (record st { sessions = m })
        ≡ resolve_session_key id (record st { sessions = m' })
  unfolding resolve_session_key
  resolve_session_key-Reordered id st r = rw (lookup-Reordered id r, the_only-with_prefix id r) refl
