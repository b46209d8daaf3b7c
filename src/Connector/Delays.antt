-- ===== src/Connector/Delays.antt =====
-- crates/agent-dash/src/relay_connector.rs: how long the bridge waits before it connects again.
use Prim.Native.Nat.{min}
use agent_dash.Prelude.{ℕ, ◌*◌, ◌≤◌, true, false, List, [], ◌∷◌, arith, if◌then◌else◌, All, Bool}
use agent_dash.Connector.{Ending, closed, failed}

abbrev pub first_backoff : ℕ
first_backoff = 1000

abbrev pub is_clean : Ending → Bool
is_clean closed = true
is_clean (failed failure) = false

-- the rounds of the loop of `run_connector`, one for each bridge that ended: the delays, in
-- milliseconds, after each
unfoldable pub delays : ℕ → List Ending → List ℕ
delays backoff_ms [] = []
delays backoff_ms (ending ∷ endings) =
    let backoff = if is_clean ending then first_backoff else backoff_ms in
    backoff ∷ delays (min (backoff * 2) 30000) endings

abbrev pub IsBackoff : ℕ → Type 0
IsBackoff d = (1000 ≤ d) × (d ≤ 30000)

-- Every delay before the next connection is between one and thirty seconds.
pub delays-IsBackoff :
    (backoff_ms : ℕ) (endings : List Ending)
    → IsBackoff backoff_ms
    → All IsBackoff (delays backoff_ms endings)
unfolding delays
delays-IsBackoff backoff_ms [] h = tt
delays-IsBackoff backoff_ms (closed ∷ endings) h =
    ((ground arith, ground arith), delays-IsBackoff 2000 endings (ground arith, ground arith))
delays-IsBackoff backoff_ms (failed failure ∷ endings) (low, high) =
    ((low, high), delays-IsBackoff (min (backoff_ms * 2) 30000) endings (omega arith, omega arith))
