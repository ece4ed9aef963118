-- ===== src/Datasource/CircuitBreaker/Laws.antt =====
-- What holds of a breaker after any calls: the counter's bounds, when it opens, how it recovers.
use bdopsflow.Prelude.{
  ℕ, ◌+◌, ◌≤◌, ◌<◌, ◌≡◌, refl, ◌≢◌, Bool, true, false, List, [], ◌∷◌, arith, ltb, if◌then◌else◌,
  length, Bool-cases, ltb→lt, inl, inr, ◌∙◌, ◌↔◌,
}
use bdopsflow.Datasource.CircuitBreaker.{
  closed, opened, half_open, CircuitBreaker, new_circuit_breaker, allow_request, Call, allows,
  succeeds, fails, resets, step, run,
}

-- The thresholds are positive, and the counter stays below the one that its state watches.
pub record IsValid (cb : CircuitBreaker) : Type 0 where
  pub failures_matter : 0 < cb.failure_threshold
  pub successes_matter : 0 < cb.success_threshold
  pub closed_below : cb.state ≡ closed → cb.failure_count < cb.failure_threshold
  pub half_openedbelow : cb.state ≡ half_open → cb.failure_count < cb.success_threshold

pub new-IsValid : (now id : ℕ) → IsValid (new_circuit_breaker now id)
unfolding new_circuit_breaker
new-IsValid now id = ground arith

pub step-IsValid : (now : ℕ) (c : Call) (cb : CircuitBreaker) → IsValid cb → IsValid (step now c cb)
unfolding step
step-IsValid now allows cb v = ground arith
step-IsValid now succeeds cb v = ground arith
step-IsValid now fails cb v = ground arith
step-IsValid now resets cb v = ground arith

-- After any calls on a valid breaker the counter is below the threshold that its state watches.
pub run-IsValid : (cb : CircuitBreaker) (cs : List (ℕ × Call)) → IsValid cb → IsValid (run cb cs)
unfolding run
run-IsValid cb [] v = v
run-IsValid cb ((now, c) ∷ cs) v = run-IsValid (step now c cb) cs (step-IsValid now c cb v)

-- Failures at the given times, with no call between them.
abbrev pub failures : List ℕ → List (ℕ × Call)
failures [] = []
failures (t ∷ ts) = (t, fails) ∷ failures ts

failures-opened :
    (cb : CircuitBreaker) (ts : List ℕ) → cb.state ≡ opened → (run cb (failures ts)).state ≡ opened
unfolding run
failures-opened cb [] o = o
failures-opened cb (t ∷ ts) o = failures-opened (step t fails cb) ts (unfold step in ground arith)

failure_below :
    (t : ℕ) (cb : CircuitBreaker)
    → cb.state ≡ closed
    → cb.failure_count + 1 < cb.failure_threshold
    → ((step t fails cb).state ≡ closed)
      × ((step t fails cb).failure_count ≡ cb.failure_count + 1)
      × ((step t fails cb).failure_threshold ≡ cb.failure_threshold)
unfolding step
failure_below t cb c h = ground arith

failure_at :
    (t : ℕ) (cb : CircuitBreaker)
    → cb.state ≡ closed
    → cb.failure_threshold ≤ cb.failure_count + 1
    → (step t fails cb).state ≡ opened
unfolding step
failure_at t cb c h = ground arith

-- Failures in a row open a closed breaker exactly when they bring the count up to the threshold.
pub failures-open :
    (cb : CircuitBreaker) (ts : List ℕ)
    → cb.state ≡ closed
    → cb.failure_count < cb.failure_threshold
    → (run cb (failures ts)).state
      ≡ (if ltb (cb.failure_count + length ts) cb.failure_threshold then closed else opened)
unfolding run
failures-open cb [] c h = ground arith
failures-open cb (t ∷ ts) c h =
    elim (Bool-cases (ltb (cb.failure_count + 1) cb.failure_threshold)) [
      | inl more ↦
          let (c', n, k) = failure_below t cb c (ltb→lt _ _ more) in
          failures-open (step t fails cb) ts c' (ground arith) ∙ rw (n, k) (ground arith)
      | inr done ↦
          failures-opened (step t fails cb) ts (failure_at t cb c (ground arith)) ∙ ground arith
    ]

-- A request is refused exactly by an open breaker whose recovery time has not passed.
pub allow_request-refuses :
    (now : ℕ) (cb : CircuitBreaker)
    → ((allow_request now cb).1 ≡ false)
      ↔ ((cb.state ≡ opened) × (now ≤ cb.last_state_change + cb.recovery_timeout))
unfolding allow_request
allow_request-refuses now cb = (λ h. (ground arith, ground arith), λ h. ground arith)

-- The calls of a history fall inside the recovery time, and none of them is `Reset`.
abbrev pub IsWithin : ℕ → List (ℕ × Call) → Type 0
IsWithin limit [] = Unit {0}
IsWithin limit ((now, c) ∷ cs) = (now ≤ limit) × (c ≢ resets) × IsWithin limit cs

-- The answers that `AllowRequest` gives along a history.
pub answers : CircuitBreaker → List (ℕ × Call) → List Bool
answers cb [] = []
answers cb ((now, allows) ∷ cs) = (allow_request now cb).1 ∷ answers (step now allows cb) cs
answers cb ((now, c) ∷ cs) = answers (step now c cb) cs

abbrev pub AllFalse : List Bool → Type 0
AllFalse [] = Unit {0}
AllFalse (b ∷ bs) = (b ≡ false) × AllFalse bs

step_within :
    (now : ℕ) (c : Call) (cb : CircuitBreaker)
    → cb.state ≡ opened
    → now ≤ cb.last_state_change + cb.recovery_timeout
    → c ≢ resets
    → ((step now c cb).state ≡ opened)
      × ((step now c cb).last_state_change ≡ cb.last_state_change)
      × ((step now c cb).recovery_timeout ≡ cb.recovery_timeout)
unfolding step
step_within now allows cb o h n = ground arith
step_within now succeeds cb o h n = ground arith
step_within now fails cb o h n = ground arith
step_within now resets cb o h n = absurd (n refl)

-- An open breaker stays open and admits nothing until its recovery time has passed, whatever
-- successes and failures are reported meanwhile.
pub answers-open :
    (limit : ℕ) (cb : CircuitBreaker) (cs : List (ℕ × Call))
    → cb.state ≡ opened
    → limit ≡ cb.last_state_change + cb.recovery_timeout
    → IsWithin limit cs
    → AllFalse (answers cb cs) × ((run cb cs).state ≡ opened)
unfolding answers run
answers-open limit cb [] o e w = (tt, o)
answers-open limit cb ((now, allows) ∷ cs) o e (h, n, w) =
    let (o', l, r) = step_within now allows cb o (omega arith) n in
    let (f, z) = answers-open limit (step now allows cb) cs o' (omega arith) w in
    (((allow_request-refuses now cb).1 (o, omega arith), f), z)
answers-open limit cb ((now, c) ∷ cs) o e (h, n, w) =
    let (o', l, r) = step_within now c cb o (omega arith) n in
    answers-open limit (step now c cb) cs o' (omega arith) w

abbrev pub successes : List ℕ → List (ℕ × Call)
successes [] = []
successes (t ∷ ts) = (t, succeeds) ∷ successes ts

successes-closed :
    (cb : CircuitBreaker) (ts : List ℕ) → cb.state ≡ closed → (run cb (successes ts)).state ≡ closed
unfolding run
successes-closed cb [] o = o
successes-closed cb (t ∷ ts) o =
    successes-closed (step t succeeds cb) ts (unfold step in ground arith)

success_below :
    (t : ℕ) (cb : CircuitBreaker)
    → cb.state ≡ half_open
    → cb.failure_count + 1 < cb.success_threshold
    → ((step t succeeds cb).state ≡ half_open)
      × ((step t succeeds cb).failure_count ≡ cb.failure_count + 1)
      × ((step t succeeds cb).success_threshold ≡ cb.success_threshold)
unfolding step
success_below t cb c h = ground arith

success_at :
    (t : ℕ) (cb : CircuitBreaker)
    → cb.state ≡ half_open
    → cb.success_threshold ≤ cb.failure_count + 1
    → (step t succeeds cb).state ≡ closed
unfolding step
success_at t cb c h = ground arith

-- Successes in a row close a half-open breaker exactly when they bring the count up to the
-- success threshold.
pub successes-close :
    (cb : CircuitBreaker) (ts : List ℕ)
    → cb.state ≡ half_open
    → cb.failure_count < cb.success_threshold
    → (run cb (successes ts)).state
      ≡ (if ltb (cb.failure_count + length ts) cb.success_threshold then half_open else closed)
unfolding run
successes-close cb [] c h = ground arith
successes-close cb (t ∷ ts) c h =
    elim (Bool-cases (ltb (cb.failure_count + 1) cb.success_threshold)) [
      | inl more ↦
          let (c', n, k) = success_below t cb c (ltb→lt _ _ more) in
          successes-close (step t succeeds cb) ts c' (ground arith) ∙ rw (n, k) (ground arith)
      | inr done ↦
          successes-closed (step t succeeds cb) ts (success_at t cb c (ground arith)) ∙ ground arith
    ]

-- One failure in the half-open state opens the breaker anew: the next request is admitted only when
-- the recovery time has passed again since that failure.
pub half_open-fails :
    (t now : ℕ) (cb : CircuitBreaker)
    → cb.state ≡ half_open
    → ((allow_request now (step t fails cb)).1 ≡ true) ↔ (t + cb.recovery_timeout < now)
unfolding allow_request step
half_open-fails t now cb h = (λ e. ground arith, λ e. ground arith)
