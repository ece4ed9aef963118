-- ===== src/Datasource/Manager.antt =====
-- scheduler/internal/datasource/manager.go: the connection pool and the circuit breaker of one data source.
-- The maps of the manager are keyed by the id of the data source, and a call touches the entries of one id
-- only: `Slot` has them. The drivers and the data source's server are parameters over a state `S`; a driver
-- is a number. The settings of a connection are not modelled. A call is one step, at a clock value in
-- nanoseconds; `connecting` tells whether another call is inside `connect`.
pub mod Guarding
pub mod Openings
pub mod Histories
use bdopsflow.Prelude.{
  ℕ, zero, suc, ◌+◌, ◌-◌, ◌*◌, Bool, true, false, not, List, [], ◌∷◌, Option, none, some,
  if◌then◌else◌, ltb,
}
use bdopsflow.Datasource.CircuitBreaker.{
  CircuitBreaker, second, new_circuit_breaker, allow_request, record_success, record_failure,
}

pub data Ping : Type 0 where
  answers busy broken : Ping

pub record Drivers (S : Type 0) : Type 0 where
  pub is_unhealthy : ℕ → S → Bool
  pub close : ℕ → S → S
  pub ping : ℕ → S → S × Ping
  pub connect : (datasource_id : ℕ) → S → S × Option ℕ
  pub is_full : ℕ → S → Bool
  pub test_connection : ℕ → S → S × Bool
  pub mark_unhealthy : ℕ → S → S

-- `last_check` is none where the map has no entry.
pub record Slot : Type 0 where
  pub pool : Option ℕ
  pub last_check : Option ℕ
  pub breaker : Option CircuitBreaker
  pub connecting : Bool

unfoldable pub new_slot : Slot
new_slot = record { pool = none; last_check = none; breaker = none; connecting = false }

pub data GetResult : Type 0 where
  driver : (d : ℕ) → GetResult
  disabled circuit_open is_connecting conn_failed : GetResult

unfoldable pub get_circuit_breaker : ℕ → ℕ → Slot → CircuitBreaker
get_circuit_breaker now ds m = elim m.breaker [ none ↦ new_circuit_breaker now ds | some cb ↦ cb ]

-- Was the last check less than 30 seconds ago?
unfoldable pub is_fresh : ℕ → Option ℕ → Bool
is_fresh now none = false
is_fresh now (some last) = ltb (now - last) (30 * second)

module _ {S : Type 0} (drv : Drivers S) (now ds : ℕ) where
  unfoldable pub succeed : CircuitBreaker → Slot → Slot
  succeed cb m = record m { breaker = some (record_success now cb) }

  unfoldable pub after_connect : CircuitBreaker → Slot → S × Option ℕ → Slot × S × GetResult
  after_connect cb m (s, none) =
      (record m { breaker = some (record_failure now cb) }, s, conn_failed)
  after_connect cb m (s, some d) =
      (succeed cb (record m { pool = some d; last_check = some now }), s, driver d)

  unfoldable pub connect_new : CircuitBreaker → Slot → S → Slot × S × GetResult
  connect_new cb m s =
      if m.connecting
      then (record m { breaker = some cb }, s, is_connecting)
      else after_connect cb m (drv.connect ds s)

  -- Close the driver and forget it, then connect again.
  unfoldable pub reconnect : ℕ → CircuitBreaker → Slot → S → Slot × S × GetResult
  reconnect d cb m s = connect_new cb (record m { pool = none; last_check = none }) (drv.close d s)

  unfoldable pub after_ping : ℕ → CircuitBreaker → Slot → S × Ping → Slot × S × GetResult
  after_ping d cb m (s, answers) = (succeed cb (record m { last_check = some now }), s, driver d)
  after_ping d cb m (s, busy) = (record m { last_check = some now; breaker = some cb }, s, driver d)
  after_ping d cb m (s, broken) = reconnect d cb m s

  unfoldable pub use_pooled : CircuitBreaker → Slot → S → Option ℕ → Slot × S × GetResult
  use_pooled cb m s none = connect_new cb m s
  use_pooled cb m s (some d) =
      if drv.is_unhealthy d s
      then reconnect d cb m s
      else if is_fresh now m.last_check
      then (succeed cb m, s, driver d)
      else after_ping d cb m (drv.ping d s)

  unfoldable pub after_allow : Slot → S → CircuitBreaker × Bool → Slot × S × GetResult
  after_allow m s (cb, false) = (record m { breaker = some cb }, s, circuit_open)
  after_allow m s (cb, true) = use_pooled cb m s m.pool

  unfoldable pub get_driver : Bool → Slot → S → Slot × S × GetResult
  get_driver false m s = (m, s, disabled)
  get_driver true m s = after_allow m s (allow_request now (get_circuit_breaker now ds m))

  close_pooled : S → Option ℕ → S
  close_pooled s none = s
  close_pooled s (some d) = drv.close d s

  unfoldable pub remove_datasource : Slot → S → Slot × S
  unfolding close_pooled
  remove_datasource m s = (record m { pool = none; breaker = none }, close_pooled s m.pool)

  after_test : ℕ → CircuitBreaker → Slot → S × Bool → Slot × S
  after_test d cb m (s, true) = (record m { breaker = some (record_success now cb) }, s)
  after_test d cb m (s, false) = (
    record m { breaker = some (record_failure now cb) },
    (if drv.is_unhealthy d s then s else drv.mark_unhealthy d s),
  )

  -- The background check of one data source; a driver whose pool is full is not tested.
  check_pooled : CircuitBreaker → Slot → S → Option ℕ → Slot × S
  unfolding after_test
  check_pooled cb m s none = (m, s)
  check_pooled cb m s (some d) =
      if drv.is_full d s
      then (record m { breaker = some (record_success now cb) }, s)
      else after_test d cb m (drv.test_connection d s)

  unfoldable pub check_connection : Slot → S → Slot × S
  unfolding check_pooled
  check_connection m s = check_pooled (get_circuit_breaker now ds m) m s m.pool
