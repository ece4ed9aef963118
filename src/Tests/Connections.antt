-- ===== src/Tests/Connections.antt =====
-- The theorems on retries and on the Hive pool at concrete inputs.
use bdopsflow.Prelude.{
  ℕ, suc, ◌+◌, ◌*◌, ◌≤◌, ◌≡◌, refl, Bool, true, false, [], ◌∷◌, some, arith, length,
}
use bdopsflow.Prelude.Int.{pos, ◌+ℤ◌, ◌≤ℤ◌}
use bdopsflow.Datasource.Retry.{
  Phrase, timeout, Answer, fails, exhausted, default_retry_config, with_retry, second, retry_loop,
  after_pause, after_query, pause, calculate_delay, next_config, classify_error,
}
use bdopsflow.Datasource.Retry.Attempts.{Counts, with_retry-ends}
use bdopsflow.Datasource.HivePool.{
  default_pool_config, HiveConnPool, new_hive_conn_pool, put, push, is_expired, try_acquire, leased,
}
use bdopsflow.Datasource.HivePool.Cleanup.{stats}
use bdopsflow.Datasource.HivePool.Accounting.{Balanced}
use bdopsflow.Datasource.HivePool.Leases.{Reaches, starts, puts, Reaches-Balanced}
use bdopsflow.Datasource.HivePool.Stats.{stats-Reaches, try_acquire-undercounts}

-- The queries made and the nanoseconds waited.
abbrev Counters : Type 0
Counters = ℕ × ℕ

abbrev queries : Counters → ℕ
queries s = s.0

abbrev waited : Counters → ℕ
waited s = s.1

abbrev wait : ℕ → Counters → Counters × Bool
wait n s = ((s.0, s.1 + n), false)

is_timeout : Phrase → Bool
is_timeout timeout = true
is_timeout _ = false

-- Every query times out.
abbrev query : Counters → Counters × Answer ℕ
query s = ((suc s.0, s.1), fails is_timeout)

counted : Counts wait query queries waited
counted = record {
  wait_queries = λ n s. refl;
  wait_waited = λ n s. omega arith;
  query_queries = λ s. refl;
  query_waited = λ s. refl;
}

with_retry-ends_example :
    (queries (with_retry wait query default_retry_config (0, 0)).0 ≤ 0 + 3)
    × (waited (with_retry wait query default_retry_config (0, 0)).0 ≤ 0 + 3 * (30 * second))
unfolding default_retry_config
with_retry-ends_example =
    with_retry-ends wait query queries waited counted default_retry_config (0, 0)

-- All three attempts time out: the first wait is the 5 seconds that the error asks for, the second is twice
-- as long.
all_time_out :
    with_retry wait query default_retry_config (0, 0)
    ≡ ((3, 15 * second), exhausted (some is_timeout))
unfolding with_retry retry_loop after_pause after_query pause calculate_delay next_config
    classify_error default_retry_config is_timeout
all_time_out = refl

-- A pool with the connection 7, made at second 0.
abbrev warm : HiveConnPool
warm = put 7 0 (new_hive_conn_pool default_pool_config)

warm_reached : Reaches 0 warm
warm_reached = puts 7 0 (starts default_pool_config)

Reaches-Balanced_example : Balanced 0 warm
Reaches-Balanced_example = Reaches-Balanced warm_reached

stats-Reaches_example :
    ((stats warm).1 +ℤ (stats warm).2 ≡ (stats warm).0)
    × (pos (length warm.conns) ≤ℤ (stats warm).1)
    × ((stats warm).2 ≤ℤ pos 0)
stats-Reaches_example = stats-Reaches warm_reached

try_acquire-undercounts_example :
    ((try_acquire false (some 8) 2000 warm).1 ≡ leased 8)
    × ((try_acquire false (some 8) 2000 warm).0.in_use_count ≡ warm.in_use_count)
unfolding put push new_hive_conn_pool default_pool_config is_expired ◌+ℤ◌
try_acquire-undercounts_example =
    try_acquire-undercounts 0 2000 7 8 [] warm warm_reached is_warm is_old is_open
  where
    is_warm : warm.conns ≡ 7 ∷ []
    is_warm = refl

    is_old : is_expired 2000 warm 7 ≡ true
    is_old = refl

    is_open : warm.open_count ≤ℤ pos warm.config.max_open
    is_open = ground arith
