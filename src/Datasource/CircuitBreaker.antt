-- ===== src/Datasource/CircuitBreaker.antt =====
-- scheduler/internal/datasource/circuit_breaker.go. A method that mutates `*CircuitBreaker` returns
-- the new record; each runs under `cb.mu`, so it is one step. The clock is an argument, read once a
-- call, in nanoseconds; logging is left out, and the counter is not bounded by 2 ^ 63.
pub mod Laws
use bdopsflow.Prelude.{ℕ, ◌+◌, ◌-◌, ◌*◌, Bool, true, false, List, [], ◌∷◌, ltb, leb, if◌then◌else◌}

pub data CircuitState : Type 0 where
  closed opened half_open : CircuitState

pub record CircuitBreaker : Type 0 where
  pub state : CircuitState
  pub failure_count : ℕ
  pub failure_threshold : ℕ
  pub recovery_timeout : ℕ
  pub success_threshold : ℕ
  pub last_failure_time : ℕ
  pub last_state_change : ℕ
  pub datasource_id : ℕ

abbrev pub second : ℕ
second = 1000000000

unfoldable pub new_circuit_breaker : ℕ → ℕ → CircuitBreaker
new_circuit_breaker now datasource_id = record {
  state = closed;
  failure_count = 0;
  failure_threshold = 5;
  recovery_timeout = 30 * second;
  success_threshold = 2;
  last_failure_time = 0;
  last_state_change = now;
  datasource_id = datasource_id;
}

-- `time.Since(t) > d`: a time before `t` gives a negative duration, never above `d`.
pub since_exceeds : ℕ → ℕ → ℕ → Bool
since_exceeds now t d = ltb d (now - t)

allow_in : CircuitState → ℕ → CircuitBreaker → CircuitBreaker × Bool
unfolding since_exceeds
allow_in closed now cb = (cb, true)
allow_in opened now cb =
    if since_exceeds now cb.last_state_change cb.recovery_timeout
    then (record cb { state = half_open; last_state_change = now; failure_count = 0 }, true)
    else (cb, false)
allow_in half_open now cb = (cb, true)

unfoldable pub allow_request : ℕ → CircuitBreaker → CircuitBreaker × Bool
unfolding allow_in
allow_request now cb = allow_in cb.state now cb

-- In the half-open state `failureCount` counts successes.
success_in : CircuitState → ℕ → CircuitBreaker → CircuitBreaker
success_in half_open now cb =
    if leb cb.success_threshold (cb.failure_count + 1)
    then record cb { state = closed; failure_count = 0; last_state_change = now }
    else record cb { failure_count = cb.failure_count + 1 }
success_in closed now cb = record cb { failure_count = 0 }
success_in opened now cb = cb

unfoldable pub record_success : ℕ → CircuitBreaker → CircuitBreaker
unfolding success_in
record_success now cb = success_in cb.state now cb

failure_in : CircuitState → ℕ → CircuitBreaker → CircuitBreaker
failure_in closed now cb =
    if leb cb.failure_threshold cb.failure_count
    then record cb { state = opened; last_state_change = now }
    else cb
failure_in half_open now cb = record cb {
  state = opened;
  failure_count = 0;
  last_state_change = now;
}
failure_in opened now cb = cb

unfoldable pub record_failure : ℕ → CircuitBreaker → CircuitBreaker
unfolding failure_in
record_failure now cb =
    failure_in cb.state now
      (record cb { failure_count = cb.failure_count + 1; last_failure_time = now })

unfoldable pub reset : ℕ → CircuitBreaker → CircuitBreaker
reset now cb = record cb { state = closed; failure_count = 0; last_state_change = now }

-- The calls that a user of the breaker makes.
pub data Call : Type 0 where
  allows succeeds fails resets : Call

unfoldable pub step : ℕ → Call → CircuitBreaker → CircuitBreaker
unfolding allow_request record_success record_failure reset
step now allows cb = (allow_request now cb).0
step now succeeds cb = record_success now cb
step now fails cb = record_failure now cb
step now resets cb = reset now cb

unfoldable pub run : CircuitBreaker → List (ℕ × Call) → CircuitBreaker
run cb [] = cb
run cb ((now, c) ∷ cs) = run (step now c cb) cs
