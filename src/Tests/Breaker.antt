-- ===== src/Tests/Breaker.antt =====
-- The circuit breaker's theorems at a breaker of datasource 7.
use bdopsflow.Prelude.{◌≡◌, refl, [], ◌∷◌, arith}
use bdopsflow.Datasource.CircuitBreaker.{
  CircuitBreaker, closed, opened, half_open, run, allows, succeeds,
}
use bdopsflow.Datasource.CircuitBreaker.Laws.{answers, AllFalse, answers-open}

abbrev fresh : CircuitBreaker
fresh = record {
  state = closed;
  failure_count = 0;
  failure_threshold = 5;
  recovery_timeout = 30;
  success_threshold = 2;
  last_failure_time = 0;
  last_state_change = 100;
  datasource_id = 7;
}

abbrev tripped : CircuitBreaker
tripped = record fresh { state = opened; failure_count = 5 }

abbrev probing : CircuitBreaker
probing = record fresh { state = half_open; failure_count = 0 }

answers-open_example :
    AllFalse (answers tripped ((110, allows) ∷ (111, succeeds) ∷ (130, allows) ∷ []))
    × ((run tripped ((110, allows) ∷ (111, succeeds) ∷ (130, allows) ∷ [])).state ≡ opened)
answers-open_example =
    answers-open 130 tripped ((110, allows) ∷ (111, succeeds) ∷ (130, allows) ∷ []) refl refl
      (omega arith, (λ e. cc), (omega arith, (λ e. cc), (omega arith, (λ e. cc), tt)))
