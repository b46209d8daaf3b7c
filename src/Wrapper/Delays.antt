-- ===== src/Wrapper/Delays.antt =====
-- crates/agent-dash/src/wrapper.rs: the loops that connect to the daemon again, with growing delays,
-- and the wait for a daemon that was just started.
use Prim.Native.Nat.{min}
use agent_dash.Prelude.{
  ℕ, zero, suc, ◌+◌, ◌*◌, ◌≤◌, Bool, true, false, List, [], ◌∷◌, ◌++◌, ◌≡◌, refl, ap, arith, not,
  if◌then◌else◌, length, All,
}

-- one round of a loop: whether the wrapper still runs, and whether the daemon can then be reached
-- and, in the listener thread, takes the registration
pub record Attempt : Type 0 where
  pub is_running : Bool
  pub connects : Bool

pub data Outcome : Type 0 where
  stopped connected waiting : Outcome

-- the delays slept, in seconds, and what came of it; `waiting` where the attempts are used up
unfoldable pub reconnect : ℕ → List Attempt → List ℕ × Outcome
reconnect delay [] = ([], waiting)
reconnect delay (a ∷ attempts) =
    let (slept, outcome) = reconnect (min (delay * 2) 10) attempts in
    if not a.is_running
    then ([], stopped)
    else if a.connects
    then (delay ∷ [], connected)
    else (delay ∷ slept, outcome)

abbrev pub first_delay : ℕ
first_delay = 1

-- `for _ in 0..20 { sleep(100 ms); if connect(..).is_ok() { return true } }`
unfoldable pub wait_for_socket : ℕ → (ℕ → Bool) → Bool
wait_for_socket zero connects = false
wait_for_socket (suc n) connects =
    let later = wait_for_socket n (λ k. connects (suc k)) in if connects 0 then true else later

-- the daemon's socket answers at once, or a daemon can be started and answers within 20 rounds
unfoldable pub ensure_daemon : (answers has_exe spawns : Bool) → (ℕ → Bool) → Bool
ensure_daemon answers has_exe spawns connects =
    if answers
    then true
    else if not has_exe
    then false
    else if not spawns
    then false
    else wait_for_socket 20 connects

-- a round of a wrapper that runs, in which the daemon cannot be reached
abbrev pub IsFailed : Attempt → Type 0
IsFailed a = (a.is_running ≡ true) × (a.connects ≡ false)

abbrev pub IsDelay : ℕ → Type 0
IsDelay d = (1 ≤ d) × (d ≤ 10)

abbrev pub sum : List ℕ → ℕ
sum [] = 0
sum (d ∷ ds) = d + sum ds

-- no delay is shorter than the one before it
abbrev pub IsGrowing : ℕ → List ℕ → Type 0
IsGrowing least [] = Unit
IsGrowing least (d ∷ ds) = (least ≤ d) × IsGrowing d ds

IsGrowing-le : (a b : ℕ) (ds : List ℕ) → a ≤ b → IsGrowing b ds → IsGrowing a ds
IsGrowing-le a b [] h g = tt
IsGrowing-le a b (d ∷ ds) h g = (omega (arith, h, g.0), g.1)

reconnect_from :
    (delay : ℕ) (failed later : List Attempt) (a : Attempt)
    → IsDelay delay
    → All IsFailed failed
    → a.is_running ≡ true
    → a.connects ≡ true
    → let result = reconnect delay (failed ++ a ∷ later) in
      (result.1 ≡ connected)
      × (length result.0 ≡ suc (length failed))
      × All IsDelay result.0
      × IsGrowing delay result.0
      × (sum result.0 ≤ 10 * suc (length failed))
unfolding reconnect
reconnect_from delay [] later a d f runs ok =
    rw (runs, ok) (refl, refl, (d, tt), (omega arith, tt), omega (arith, d.1))
reconnect_from delay (b ∷ failed) later a d f runs ok =
    let next = min (delay * 2) 10 in
    let grows : delay ≤ next = omega (arith, d.1) in
    let ih =
      reconnect_from next failed later a (omega (arith, d.0, grows), omega arith) f.1 runs ok in
    rw (f.0.0, f.0.1)
      (
        ih.0,
        ap suc ih.1,
        (d, ih.2),
        (omega arith, IsGrowing-le delay next (reconnect next (failed ++ a ∷ later)).0 grows ih.3),
        omega (arith, ih.4, d.1),
      )

-- If the wrapper runs on and the daemon can be reached after some failed attempts, the wrapper is
-- connected again at that attempt and at none before; it has slept once for each attempt, for 1 to
-- 10 seconds and never shorter than before, so for at most 10 seconds an attempt in all.
pub reconnect_lem :
    (failed later : List Attempt) (a : Attempt)
    → All IsFailed failed
    → a.is_running ≡ true
    → a.connects ≡ true
    → let result = reconnect first_delay (failed ++ a ∷ later) in
      (result.1 ≡ connected)
      × (length result.0 ≡ suc (length failed))
      × All IsDelay result.0
      × IsGrowing first_delay result.0
      × (sum result.0 ≤ 10 * suc (length failed))
reconnect_lem failed later a f runs ok =
    reconnect_from first_delay failed later a (omega arith, omega arith) f runs ok
