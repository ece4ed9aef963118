-- ===== src/Tests/Managers.antt =====
-- The manager's theorems on drivers whose state is how many are open.
use bdopsflow.Prelude.{
  ℕ, suc, ◌+◌, ◌-◌, ◌≡◌, refl, true, false, [], ◌∷◌, none, some, arith, if◌then◌else◌, ltb, ◌==◌,
}
use bdopsflow.Datasource.CircuitBreaker.{
  CircuitBreaker, new_circuit_breaker, opened, half_open, closed,
}
use bdopsflow.Datasource.Manager.{answers, Drivers, Slot, new_slot}
use bdopsflow.Datasource.Manager.Openings.{Counted, pool_size}
use bdopsflow.Datasource.Manager.Histories.{gets, checks, removes, run, run-size}
use bdopsflow.Datasource.Manager.Guarding.{Until, state_of, gets-untouched, checks-close}
use bdopsflow.Datasource.Manager.Guarding

-- The open drivers, and those that failed connects have left open.
abbrev World : Type 0
World = ℕ × ℕ

-- A connect to data source 9 fails and leaves its driver open.
abbrev drivers : Drivers World
drivers = record {
  is_unhealthy = λ d s. false;
  close = λ d s. (s.0 - 1, s.1);
  ping = λ d s. (s, answers);
  connect = λ ds s. if ds == 9 then ((suc s.0, suc s.1), none) else ((suc s.0, s.1), some 7);
  is_full = λ d s. true;
  test_connection = λ d s. (s, true);
  mark_unhealthy = λ d s. s;
}

abbrev opens : World → ℕ
opens s = s.0

abbrev left : World → ℕ
left s = s.1

counted : Counted drivers opens left
counted = record {
  connect_some = λ ds d s h. (ground arith, ground arith);
  connect_none = λ ds s h. ground arith;
  close_one = λ d s. (refl, refl);
  ping_same = λ d s. (refl, refl);
  test_same = λ d s. (refl, refl);
  mark_same = λ d s. (refl, refl);
}

run-size_example :
    let r =
      run drivers opens left counted 9
        (gets 100 true ∷ checks 200 ∷ removes ∷ gets 300 true ∷ [])
        (new_slot, (0, 0)) in
    opens r.1 ≡ pool_size r.0.pool (left r.1)
run-size_example =
    run-size drivers opens left counted 9
      (gets 100 true ∷ checks 200 ∷ removes ∷ gets 300 true ∷ []) (0, 0) refl refl

-- A breaker that opened at 100, and one that is half open.
abbrev open_breaker : CircuitBreaker
open_breaker = record (new_circuit_breaker 0 3) { state = opened; last_state_change = 100 }

abbrev half_breaker : CircuitBreaker
half_breaker = record (new_circuit_breaker 0 3) { state = half_open }

abbrev guarded : CircuitBreaker → Slot
guarded cb = record { pool = some 7; last_check = none; breaker = some cb; connecting = false }

gets-untouched_example :
    (Guarding.gets drivers 3 ((150, true) ∷ (200, true) ∷ []) (guarded open_breaker, (1, 0))).1
    ≡ (1, 0)
unfolding Until new_circuit_breaker
gets-untouched_example =
    gets-untouched drivers 3 ((150, true) ∷ (200, true) ∷ []) (guarded open_breaker) (1, 0)
      open_breaker refl refl in_time
  where
    in_time : Until drivers 3 (100 + open_breaker.recovery_timeout) ((150, true) ∷ (200, true) ∷ [])
    in_time = (omega arith, (omega arith, tt))

checks-close_example :
    ((Guarding.checks drivers 3 (10 ∷ 20 ∷ []) (guarded half_breaker, (1, 0))).1 ≡ (1, 0))
    × (state_of (Guarding.checks drivers 3 (10 ∷ 20 ∷ []) (guarded half_breaker, (1, 0))).0.breaker
        ≡ some (
            if ltb (half_breaker.failure_count + 2) half_breaker.success_threshold
            then half_open
            else closed))
unfolding new_circuit_breaker
checks-close_example =
    checks-close drivers 3 (10 ∷ 20 ∷ []) 7 (guarded half_breaker) (1, 0) half_breaker refl refl
      refl refl (omega arith)
