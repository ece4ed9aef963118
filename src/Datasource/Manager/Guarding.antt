-- ===== src/Datasource/Manager/Guarding.antt =====
-- The circuit breaker guards a data source's server (scheduler/internal/datasource/manager.go).
use bdopsflow.Prelude.{
  ℕ, ◌+◌, ◌<◌, ◌≤◌, ◌≡◌, refl, sym, ap, ◌∙◌, subst, Bool, true, false, List, [], ◌∷◌, Option, none,
  some, arith, if◌then◌else◌, ltb, length,
}
use bdopsflow.Datasource.CircuitBreaker.{
  CircuitState, CircuitBreaker, run, step, new_circuit_breaker, opened, half_open, closed,
  allow_request, record_success,
}
use bdopsflow.Datasource.CircuitBreaker.Laws.{successes, successes-close}
use bdopsflow.Datasource.Manager.{
  Drivers, Slot, get_circuit_breaker, after_allow, get_driver, check_connection, check_pooled,
  after_test,
}

unfoldable pub state_of : Option CircuitBreaker → Option CircuitState
state_of none = none
state_of (some cb) = some cb.state

module _ {S : Type 0} (drv : Drivers S) (ds : ℕ) where
  -- The results of calls at the given times, and the states in which they end.
  unfoldable pub gets : List (ℕ × Bool) → Slot × S → Slot × S
  gets [] p = p
  gets ((now, enabled) ∷ cs) (m, s) =
      let r = get_driver drv now ds enabled m s in gets cs (r.0, r.1)

  unfoldable pub Until : ℕ → List (ℕ × Bool) → Type 0
  Until limit [] = Unit
  Until limit ((now, enabled) ∷ cs) = (now ≤ limit) × Until limit cs

  refused :
      (now : ℕ) (cb : CircuitBreaker)
      → cb.state ≡ opened
      → now ≤ cb.last_state_change + cb.recovery_timeout
      → allow_request now cb ≡ (cb, false)
  unfolding allow_request
  refused now cb o l = ground arith

  breaker_of :
      (now : ℕ) (m : Slot) (cb : CircuitBreaker)
      → m.breaker ≡ some cb
      → get_circuit_breaker now ds m ≡ cb
  unfolding get_circuit_breaker
  breaker_of now m cb b =
      ap (λ (o : Option CircuitBreaker). elim o [ none ↦ new_circuit_breaker now ds | some c ↦ c ])
        b

  -- The breaker is kept as it is, and the state of the drivers too.
  record Untouched (cb : CircuitBreaker) (s : S) (p : Slot × S) : Type 0 where
    breaks : p.0.breaker ≡ some cb
    untouched : p.1 ≡ s

  get_driver-Untouched :
      (now : ℕ) (enabled : Bool) (m : Slot) (s : S) (cb : CircuitBreaker)
      → m.breaker ≡ some cb
      → cb.state ≡ opened
      → now ≤ cb.last_state_change + cb.recovery_timeout
      → Untouched cb s
          ((get_driver drv now ds enabled m s).0, (get_driver drv now ds enabled m s).1)
  unfolding get_driver after_allow get_circuit_breaker
  get_driver-Untouched now false m s cb b o l = record { breaks = b; untouched = refl }
  get_driver-Untouched now true m s cb b o l =
      subst
        (λ (r : CircuitBreaker × Bool).
          Untouched cb s ((after_allow drv now ds m s r).0, (after_allow drv now ds m s r).1))
        (sym (ap (allow_request now) (breaker_of now m cb b) ∙ refused now cb o l))
        (record { breaks = refl; untouched = refl })

  gets-Untouched :
      (cs : List (ℕ × Bool)) (m : Slot) (s : S) (cb : CircuitBreaker)
      → m.breaker ≡ some cb
      → cb.state ≡ opened
      → Until (cb.last_state_change + cb.recovery_timeout) cs
      → Untouched cb s (gets cs (m, s))
  unfolding gets Until
  gets-Untouched [] m s cb b o w = record { breaks = b; untouched = refl }
  gets-Untouched ((now, enabled) ∷ cs) m s cb b o w =
      let first = get_driver-Untouched now enabled m s cb b o w.0 in
      let rest = gets-Untouched cs _ _ cb first.breaks o w.1 in
      record { breaks = rest.breaks; untouched = rest.untouched ∙ first.untouched }

  -- While the breaker of a data source is open and its time has not passed, any number of calls leave its
  -- drivers and its server alone.
  pub gets-untouched :
      (cs : List (ℕ × Bool)) (m : Slot) (s : S) (cb : CircuitBreaker)
      → m.breaker ≡ some cb
      → cb.state ≡ opened
      → Until (cb.last_state_change + cb.recovery_timeout) cs
      → (gets cs (m, s)).1 ≡ s
  gets-untouched cs m s cb b o w = (gets-Untouched cs m s cb b o w).untouched

  -- The background checks at the given times.
  unfoldable pub checks : List ℕ → Slot × S → Slot × S
  checks [] p = p
  checks (now ∷ ts) (m, s) = checks ts (check_connection drv now ds m s)

  check_connection-full :
      (now d : ℕ) (m : Slot) (s : S) (cb : CircuitBreaker)
      → m.pool ≡ some d
      → m.breaker ≡ some cb
      → drv.is_full d s ≡ true
      → check_connection drv now ds m s ≡ (record m { breaker = some (record_success now cb) }, s)
  unfolding check_connection check_pooled
  check_connection-full now d m s cb p b f =
      ap (check_pooled drv now ds (get_circuit_breaker now ds m) m s) p
      ∙ ap
          (λ (x : Bool).
            if x
            then counted
            else after_test drv now ds d (get_circuit_breaker now ds m) m (drv.test_connection d s))
          f
      ∙ ap (λ c. (record m { breaker = some (record_success now c) }, s)) (breaker_of now m cb b)
    where
      counted : Slot × S
      counted = (record m { breaker = some (record_success now (get_circuit_breaker now ds m)) }, s)

  checks-run :
      (ts : List ℕ) (d : ℕ) (m : Slot) (s : S) (cb : CircuitBreaker)
      → m.pool ≡ some d
      → m.breaker ≡ some cb
      → drv.is_full d s ≡ true
      → (checks ts (m, s)).0.breaker ≡ some (run cb (successes ts))
  unfolding checks run step
  checks-run [] d m s cb p b f = b
  checks-run (now ∷ ts) d m s cb p b f =
      ap (λ (r : Slot × S). (checks ts r).0.breaker) (check_connection-full now d m s cb p b f)
      ∙ checks-run ts d _ s (record_success now cb) p refl f

  checks-untouched :
      (ts : List ℕ) (d : ℕ) (m : Slot) (s : S) (cb : CircuitBreaker)
      → m.pool ≡ some d
      → m.breaker ≡ some cb
      → drv.is_full d s ≡ true
      → (checks ts (m, s)).1 ≡ s
  unfolding checks
  checks-untouched [] d m s cb p b f = refl
  checks-untouched (now ∷ ts) d m s cb p b f =
      ap (λ (r : Slot × S). (checks ts r).1) (check_connection-full now d m s cb p b f)
      ∙ checks-untouched ts d _ s (record_success now cb) p refl f

  -- A driver whose pool is full is not tested, and the checks leave the drivers and the server alone; yet
  -- each check counts as a success, and a half-open breaker closes after enough of them.
  pub checks-close :
      (ts : List ℕ) (d : ℕ) (m : Slot) (s : S) (cb : CircuitBreaker)
      → m.pool ≡ some d
      → m.breaker ≡ some cb
      → drv.is_full d s ≡ true
      → cb.state ≡ half_open
      → cb.failure_count < cb.success_threshold
      → ((checks ts (m, s)).1 ≡ s)
        × (state_of (checks ts (m, s)).0.breaker
            ≡ some (
                if ltb (cb.failure_count + length ts) cb.success_threshold
                then half_open
                else closed))
  unfolding state_of
  checks-close ts d m s cb p b f h l = (
    checks-untouched ts d m s cb p b f,
    ap state_of (checks-run ts d m s cb p b f) ∙ ap some (successes-close cb ts h l),
  )
