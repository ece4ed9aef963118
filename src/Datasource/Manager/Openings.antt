-- ===== src/Datasource/Manager/Openings.antt =====
-- The drivers that a data source has open (scheduler/internal/datasource/manager.go).
use bdopsflow.Prelude.{
  ℕ, suc, ◌+◌, ◌-◌, ◌≡◌, refl, sym, ap, ◌∙◌, Bool, true, false, Option, none, some, if◌then◌else◌,
  arith,
}
use bdopsflow.Datasource.CircuitBreaker.{CircuitBreaker, allow_request, record_success}
use bdopsflow.Datasource.Manager.{
  Ping, answers, busy, broken, Drivers, Slot, GetResult, driver, is_connecting, get_circuit_breaker,
  is_fresh, succeed, after_connect, connect_new, reconnect, after_ping, use_pooled, after_allow,
  get_driver, close_pooled, remove_datasource, after_test, check_pooled, check_connection,
}

-- What the drivers do to the number of open ones, and to the number of those that a failed `connect` has
-- left open: the Hive driver starts its pool before its first connection, and keeps it if that fails.
pub record Counted {S : Type 0} (drv : Drivers S) (opens left : S → ℕ) : Type 0 where
  pub connect_some :
      (ds d : ℕ) (s : S)
      → (drv.connect ds s).1 ≡ some d
      → (opens (drv.connect ds s).0 ≡ suc (opens s)) × (left (drv.connect ds s).0 ≡ left s)
  pub connect_none :
      (ds : ℕ) (s : S)
      → (drv.connect ds s).1 ≡ none
      → opens (drv.connect ds s).0 + left s ≡ opens s + left (drv.connect ds s).0
  pub close_one :
      (d : ℕ) (s : S) → (opens (drv.close d s) ≡ opens s - 1) × (left (drv.close d s) ≡ left s)
  pub ping_same :
      (d : ℕ) (s : S) → (opens (drv.ping d s).0 ≡ opens s) × (left (drv.ping d s).0 ≡ left s)
  pub test_same :
      (d : ℕ) (s : S)
      → (opens (drv.test_connection d s).0 ≡ opens s) × (left (drv.test_connection d s).0 ≡ left s)
  pub mark_same :
      (d : ℕ) (s : S)
      → (opens (drv.mark_unhealthy d s) ≡ opens s) × (left (drv.mark_unhealthy d s) ≡ left s)

-- The driver in the pool, if there is one, besides `n` others.
unfoldable pub pool_size : Option ℕ → ℕ → ℕ
pool_size none n = n
pool_size (some d) n = suc n

module _ {S : Type 0} (drv : Drivers S) (opens left : S → ℕ)
    (counted : Counted drv opens left) where
  -- The open drivers are the one in the pool and those that failed connects left, and a driver that a call
  -- gives is in the pool.
  pub record Holds (r : Slot × S × GetResult) : Type 0 where
    pub counts : opens r.1 ≡ pool_size r.0.pool (left r.1)
    pub is_pooled : (d : ℕ) → r.2 ≡ driver d → r.0.pool ≡ some d

  module _ (now ds : ℕ) where
    after_connect-Holds :
        (cb : CircuitBreaker) (m : Slot) (s : S) (r : S × Option ℕ)
        → m.pool ≡ none
        → opens s ≡ left s
        → drv.connect ds s ≡ r
        → Holds (after_connect drv now ds cb m r)
    unfolding after_connect succeed pool_size
    after_connect-Holds cb m s (s', none) p z h = record {
      counts =
          failed_count (ap (λ (x : S × Option ℕ). opens x.0) h)
            (ap (λ (x : S × Option ℕ). left x.0) h)
            (counted.connect_none ds s (ap (λ (x : S × Option ℕ). x.1) h))
          ∙ sym (ap (λ o. pool_size o (left s')) p);
      is_pooled = λ d q. absurd cc;
    }
      where
        failed_count :
            opens (drv.connect ds s).0 ≡ opens s'
            → left (drv.connect ds s).0 ≡ left s'
            → opens (drv.connect ds s).0 + left s ≡ opens s + left (drv.connect ds s).0
            → opens s' ≡ left s'
        failed_count o l q = omega arith
    after_connect-Holds cb m s (s', some d) p z h = record {
      counts =
          ap (λ (x : S × Option ℕ). opens x.0) (sym h)
          ∙ (counted.connect_some ds d s (ap (λ (x : S × Option ℕ). x.1) h)).0
          ∙ ap suc (
              z
              ∙ sym (counted.connect_some ds d s (ap (λ (x : S × Option ℕ). x.1) h)).1
              ∙ ap (λ (x : S × Option ℕ). left x.0) h);
      is_pooled = λ e q. cc;
    }

    connect_new-Holds :
        (cb : CircuitBreaker) (m : Slot) (s : S)
        → m.pool ≡ none
        → opens s ≡ left s
        → Holds (connect_new drv now ds cb m s)
    unfolding connect_new pool_size
    connect_new-Holds cb m s p z = by_flag m.connecting
      where
        by_flag :
            (b : Bool)
            → Holds (
                if b
                then (record m { breaker = some cb }, s, is_connecting)
                else after_connect drv now ds cb m (drv.connect ds s))
        by_flag true = record {
          counts = z ∙ sym (ap (λ o. pool_size o (left s)) p);
          is_pooled = λ d q. absurd cc;
        }
        by_flag false = after_connect-Holds cb m s _ p z refl

    reconnect-Holds :
        (d : ℕ) (cb : CircuitBreaker) (m : Slot) (s : S)
        → opens s ≡ suc (left s)
        → Holds (reconnect drv now ds d cb m s)
    unfolding reconnect
    reconnect-Holds d cb m s z =
        connect_new-Holds cb _ _ refl
          (ground (arith, (counted.close_one d s).0, (counted.close_one d s).1, z))

    after_ping-Holds :
        (d : ℕ) (cb : CircuitBreaker) (m : Slot) (r : S × Ping)
        → m.pool ≡ some d
        → opens r.0 ≡ suc (left r.0)
        → Holds (after_ping drv now ds d cb m r)
    unfolding after_ping succeed pool_size
    after_ping-Holds d cb m (s, answers) p z = record {
      counts = z ∙ sym (ap (λ o. pool_size o (left s)) p);
      is_pooled = λ e q. cc;
    }
    after_ping-Holds d cb m (s, busy) p z = record {
      counts = z ∙ sym (ap (λ o. pool_size o (left s)) p);
      is_pooled = λ e q. cc;
    }
    after_ping-Holds d cb m (s, broken) p z = reconnect-Holds d cb m s z

    use_pooled-Holds :
        (cb : CircuitBreaker) (m : Slot) (s : S) (o : Option ℕ)
        → m.pool ≡ o
        → opens s ≡ pool_size o (left s)
        → Holds (use_pooled drv now ds cb m s o)
    unfolding use_pooled succeed pool_size
    use_pooled-Holds cb m s none p z = connect_new-Holds cb m s p z
    use_pooled-Holds cb m s (some d) p z =
        by_health (drv.is_unhealthy d s) (is_fresh now m.last_check)
      where
        by_health :
            (u f : Bool)
            → Holds (
                if u
                then reconnect drv now ds d cb m s
                else if f
                then (succeed drv now ds cb m, s, driver d)
                else after_ping drv now ds d cb m (drv.ping d s))
        by_health true f = reconnect-Holds d cb m s z
        by_health false true = record {
          counts = z ∙ sym (ap (λ o. pool_size o (left s)) p);
          is_pooled = λ e q. cc;
        }
        by_health false false =
            after_ping-Holds d cb m _ p
              ((counted.ping_same d s).0 ∙ z ∙ ap suc (sym (counted.ping_same d s).1))

    -- A call leaves no driver open that is not in the pool, apart from what failed connects leave, and the
    -- driver that it gives is the one there.
    pub get_driver-Holds :
        (enabled : Bool) (m : Slot) (s : S)
        → opens s ≡ pool_size m.pool (left s)
        → Holds (get_driver drv now ds enabled m s)
    unfolding get_driver after_allow
    get_driver-Holds false m s h = record { counts = h; is_pooled = λ d q. absurd cc }
    get_driver-Holds true m s h = by_answer (allow_request now (get_circuit_breaker now ds m))
      where
        by_answer : (r : CircuitBreaker × Bool) → Holds (after_allow drv now ds m s r)
        by_answer (cb, false) = record { counts = h; is_pooled = λ d q. absurd cc }
        by_answer (cb, true) = use_pooled-Holds cb m s m.pool refl h

    pub remove_datasource-size :
        (m : Slot) (s : S)
        → opens s ≡ pool_size m.pool (left s)
        → opens (remove_datasource drv now ds m s).1
          ≡ pool_size
              (remove_datasource drv now ds m s).0.pool
              (left (remove_datasource drv now ds m s).1)
    unfolding remove_datasource close_pooled pool_size
    remove_datasource-size m s h = by_pool m.pool h
      where
        by_pool :
            (o : Option ℕ)
            → opens s ≡ pool_size o (left s)
            → opens (close_pooled drv now ds s o) ≡ left (close_pooled drv now ds s o)
        by_pool none z = z
        by_pool (some d) z = ground (arith, (counted.close_one d s).0, (counted.close_one d s).1, z)

    -- A check opens and closes no driver.
    Same : Slot → S → Slot × S → Type 0
    Same m s r = (opens r.1 ≡ opens s) × (left r.1 ≡ left s) × (r.0.pool ≡ m.pool)

    after_test-Same :
        (d : ℕ) (cb : CircuitBreaker) (m : Slot) (r : S × Bool) (s : S)
        → opens r.0 ≡ opens s
        → left r.0 ≡ left s
        → Same m s (after_test drv now ds d cb m r)
    unfolding after_test Same
    after_test-Same d cb m (s', true) s o l = (o, l, refl)
    after_test-Same d cb m (s', false) s o l = (
      ground (arith, (counted.mark_same d s').0, o),
      ground (arith, (counted.mark_same d s').1, l),
      refl,
    )

    check_pooled-Same :
        (cb : CircuitBreaker) (m : Slot) (s : S) (o : Option ℕ)
        → Same m s (check_pooled drv now ds cb m s o)
    unfolding check_pooled Same
    check_pooled-Same cb m s none = (refl, refl, refl)
    check_pooled-Same cb m s (some d) = by_full (drv.is_full d s)
      where
        by_full :
            (b : Bool)
            → Same m s (
                if b
                then (record m { breaker = some (record_success now cb) }, s)
                else after_test drv now ds d cb m (drv.test_connection d s))
        by_full true = (refl, refl, refl)
        by_full false =
            after_test-Same d cb m _ s (counted.test_same d s).0 (counted.test_same d s).1

    pub check_connection-size :
        (m : Slot) (s : S)
        → opens s ≡ pool_size m.pool (left s)
        → opens (check_connection drv now ds m s).1
          ≡ pool_size
              (check_connection drv now ds m s).0.pool
              (left (check_connection drv now ds m s).1)
    unfolding check_connection Same
    check_connection-size m s h =
        let same = check_pooled-Same (get_circuit_breaker now ds m) m s m.pool in
        same.0
        ∙ h
        ∙ sym (ap (λ o. pool_size o (left s)) same.2)
        ∙ ap (pool_size (check_connection drv now ds m s).0.pool) (sym same.1)
