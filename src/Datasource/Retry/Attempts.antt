-- ===== src/Datasource/Retry/Attempts.antt =====
-- How often a query is tried, and how long the code waits (WithRetry of
-- scheduler/internal/datasource/driver/errors.go).
use bdopsflow.Prelude.{
  ℕ, zero, suc, ◌+◌, ◌*◌, ◌≤◌, ◌≡◌, refl, subst, Bool, true, false, Option, none, some, arith,
}
use bdopsflow.Datasource.Retry.{
  Message, DatasourceError, classify_error, RetryConfig, calculate_delay, Answer, rows, fails,
  Result, gives_up, exhausted, next_config, pause, after_query, after_pause, retry_loop, with_retry,
}

-- No wait is longer than the longest delay of the configuration.
calculate_delay-le : (attempt : ℕ) (cfg : RetryConfig) → calculate_delay attempt cfg ≤ cfg.max_delay
unfolding calculate_delay
calculate_delay-le attempt cfg = ground arith

next_config-max_delay :
    (e : DatasourceError) (cfg : RetryConfig) → (next_config e cfg).max_delay ≡ cfg.max_delay
unfolding next_config
next_config-max_delay e cfg = ground arith

-- What the environment counts: the queries made, and the nanoseconds waited. A wait that is cut short
-- by the context waits no longer than asked.
pub record Counts {S R : Type 0} (wait : ℕ → S → S × Bool) (query : S → S × Answer R)
    (queries waited : S → ℕ) : Type 0 where
  pub wait_queries : (n : ℕ) (s : S) → queries (wait n s).0 ≡ queries s
  pub wait_waited : (n : ℕ) (s : S) → waited (wait n s).0 ≤ waited s + n
  pub query_queries : (s : S) → queries (query s).0 ≡ suc (queries s)
  pub query_waited : (s : S) → waited (query s).0 ≡ waited s

module _ {S R : Type 0} (wait : ℕ → S → S × Bool) (query : S → S × Answer R)
    (queries waited : S → ℕ) (counts : Counts wait query queries waited) where
  -- At most `n` queries and `d` nanoseconds more than in the first state.
  record Spends (n d : ℕ) (s : S) (r : S × Result R) : Type 0 where
    queried : queries r.0 ≤ queries s + n
    delayed : waited r.0 ≤ waited s + d

  abbrev Rest : Type 0
  Rest = RetryConfig → Option Message → S → S × Result R

  -- The rest of the loop has `left` attempts at most.
  abbrev Bounds : ℕ → Rest → Type 0
  Bounds left again =
      (cfg : RetryConfig) (last : Option Message) (s : S)
      → Spends left (left * cfg.max_delay) s (again cfg last s)

  after_query-Spends :
      (left : ℕ) (again : Rest) (cfg : RetryConfig) (s : S) (r : S × Answer R)
      → Bounds left again
      → queries r.0 ≡ suc (queries s)
      → waited r.0 ≡ waited s
      → Spends (suc left) (left * cfg.max_delay) s (after_query wait query again cfg r)
  unfolding after_query
  after_query-Spends left again cfg s (s', rows x) ih q w = record {
    queried = omega arith;
    delayed = omega arith;
  }
  after_query-Spends left again cfg s (s', fails m) ih q w = by_kind (classify_error m).retryable
    where
      e : DatasourceError
      e = classify_error m

      rest :
          Spends left
            (left * (next_config e cfg).max_delay)
            s'
            (again (next_config e cfg) (some m) s')
      rest = ih (next_config e cfg) (some m) s'

      by_kind :
          (c : Bool)
          → Spends
              (suc left)
              (left * cfg.max_delay)
              s
              (elim c [ true ↦ again (next_config e cfg) (some m) s' | false ↦ (s', gives_up e) ])
      by_kind true = record {
        queried = ground (arith, rest.queried, q);
        delayed =
            subst (λ d. waited (again (next_config e cfg) (some m) s').0 ≤ waited s + left * d)
              (next_config-max_delay e cfg)
              (subst
                (λ n.
                  waited (again (next_config e cfg) (some m) s').0
                  ≤ n + left * (next_config e cfg).max_delay)
                w rest.delayed);
      }
      by_kind false = record { queried = omega arith; delayed = omega arith }

  after_pause-Spends :
      (left : ℕ) (again : Rest) (cfg : RetryConfig) (s : S) (r : S × Bool)
      → Bounds left again
      → queries r.0 ≡ queries s
      → waited r.0 ≤ waited s + cfg.max_delay
      → Spends (suc left) (suc left * cfg.max_delay) s (after_pause wait query again cfg r)
  unfolding after_pause
  after_pause-Spends left again cfg s (s', true) ih q w = record {
    queried = omega arith;
    delayed = enough;
  }
    where
      enough : waited s' ≤ waited s + suc left * cfg.max_delay
      enough = grind arith
  after_pause-Spends left again cfg s (s', false) ih q w = record {
    queried = ground (arith, tried.queried, q);
    delayed = grind (arith, tried.delayed, w);
  }
    where
      tried :
          Spends (suc left) (left * cfg.max_delay) s' (after_query wait query again cfg (query s'))
      tried =
          after_query-Spends left again cfg s' (query s') ih (counts.query_queries s')
            (counts.query_waited s')

  queries-pause :
      (attempt : ℕ) (cfg : RetryConfig) (s : S)
      → queries (pause wait query attempt cfg s).0 ≡ queries s
  unfolding pause
  queries-pause zero cfg s = refl
  queries-pause (suc n) cfg s = counts.wait_queries _ s

  waited-pause :
      (attempt : ℕ) (cfg : RetryConfig) (s : S)
      → waited (pause wait query attempt cfg s).0 ≤ waited s + cfg.max_delay
  unfolding pause
  waited-pause zero cfg s = omega arith
  waited-pause (suc n) cfg s =
      ground
        (arith, counts.wait_waited (calculate_delay (suc n) cfg) s, calculate_delay-le (suc n) cfg)

  retry_loop-Spends : (left attempt : ℕ) → Bounds left (retry_loop wait query left attempt)
  unfolding retry_loop
  retry_loop-Spends zero attempt cfg last s = record {
    queried = omega arith;
    delayed = omega arith;
  }
  retry_loop-Spends (suc left) attempt cfg last s =
      after_pause-Spends left _ cfg s _ (retry_loop-Spends left (suc attempt))
        (queries-pause attempt cfg s) (waited-pause attempt cfg s)

  -- A query is made as often as the configuration says at most, and all the waits together last at most
  -- that many of its longest delays: the loop ends.
  pub with_retry-ends :
      (cfg : RetryConfig) (s : S)
      → (queries (with_retry wait query cfg s).0 ≤ queries s + cfg.max_attempts)
        × (waited (with_retry wait query cfg s).0 ≤ waited s + cfg.max_attempts * cfg.max_delay)
  unfolding with_retry
  with_retry-ends cfg s =
      let spends = retry_loop-Spends cfg.max_attempts 0 cfg none s in
      (spends.queried, spends.delayed)

  -- An exhausted loop has made this many queries.
  abbrev Uses : ℕ → S → S × Result R → Type 0
  Uses n s r = (last : Option Message) → r.1 ≡ exhausted last → queries r.0 ≡ queries s + n

  after_query-Uses :
      (left : ℕ) (again : Rest) (cfg : RetryConfig) (s : S) (r : S × Answer R)
      → ((cfg' : RetryConfig) (last : Option Message) (s' : S) → Uses left s' (again cfg' last s'))
      → queries r.0 ≡ suc (queries s)
      → Uses (suc left) s (after_query wait query again cfg r)
  unfolding after_query
  after_query-Uses left again cfg s (s', rows x) ih q last h = cc
  after_query-Uses left again cfg s (s', fails m) ih q last h =
      by_kind (classify_error m).retryable last h
    where
      e : DatasourceError
      e = classify_error m

      by_kind :
          (c : Bool)
          → Uses
              (suc left)
              s
              (elim c [ true ↦ again (next_config e cfg) (some m) s' | false ↦ (s', gives_up e) ])
      by_kind true last h = ground (arith, ih (next_config e cfg) (some m) s' last h, q)
      by_kind false last h = cc

  after_pause-Uses :
      (left : ℕ) (again : Rest) (cfg : RetryConfig) (s : S) (r : S × Bool)
      → ((cfg' : RetryConfig) (last : Option Message) (s' : S) → Uses left s' (again cfg' last s'))
      → queries r.0 ≡ queries s
      → Uses (suc left) s (after_pause wait query again cfg r)
  unfolding after_pause
  after_pause-Uses left again cfg s (s', true) ih q last h = cc
  after_pause-Uses left again cfg s (s', false) ih q last h =
      ground (
        arith,
        after_query-Uses left again cfg s' (query s') ih (counts.query_queries s') last h,
        q,
      )

  retry_loop-Uses :
      (left attempt : ℕ) (cfg : RetryConfig) (last : Option Message) (s : S)
      → Uses left s (retry_loop wait query left attempt cfg last s)
  unfolding retry_loop
  retry_loop-Uses zero attempt cfg last s l h = omega arith
  retry_loop-Uses (suc left) attempt cfg last s l h =
      after_pause-Uses left _ cfg s _ (retry_loop-Uses left (suc attempt))
        (queries-pause attempt cfg s) l h

  -- The code says that its attempts are exhausted only after as many queries as the configuration says.
  pub with_retry-exhausted :
      (cfg : RetryConfig) (s : S) (last : Option Message)
      → (with_retry wait query cfg s).1 ≡ exhausted last
      → queries (with_retry wait query cfg s).0 ≡ queries s + cfg.max_attempts
  unfolding with_retry
  with_retry-exhausted cfg s = retry_loop-Uses cfg.max_attempts 0 cfg none s
