-- ===== src/Datasource/Retry.antt =====
-- scheduler/internal/datasource/driver/errors.go: the kinds of error of a data source, and how a query is
-- retried. A message is the set of texts that the code looks for in it, in lower case; a waiting or a
-- query is a step of the environment. Durations are nanoseconds, the multiplier a whole number as in
-- DefaultRetryConfig.
pub mod Attempts
use bdopsflow.Prelude.{
  ℕ, zero, suc, ◌+◌, ◌-◌, ◌*◌, ◌^◌, Bool, true, false, ◌||◌, List, [], ◌∷◌, Option, none, some,
  if◌then◌else◌, ltb, any,
}

pub data Phrase : Type 0 where
  broken_pipe connection_reset connection_refused network_is_unreachable no_such_host dial_tcp eof :
      Phrase
  timeout io_timeout deadline_exceeded : Phrase
  authentication access_denied unauthorized invalid_credentials wrong_password wrongpass noauth :
      Phrase
  permission_denied forbidden not_allowed : Phrase
  too_many_connections connection_pool resource_temporarily_unavailable : Phrase
  ttransport transport_error : Phrase

abbrev pub Message : Type 0
Message = Phrase → Bool

pub data Category : Type 0 where
  connection_error timeout_error authentication_error permission_error resource_error query_error :
      Category

pub record DatasourceError : Type 0 where
  pub category : Category
  pub retryable : Bool
  pub retry_after : ℕ

abbrev pub second : ℕ
second = 1_000_000_000

has_any : Message → List Phrase → Bool
has_any m ps = any (λ q. m q) ps

is_connection : Message → Bool
unfolding has_any
is_connection m = has_any m (
    broken_pipe ∷ connection_reset ∷ connection_refused ∷ network_is_unreachable ∷ no_such_host
    ∷ dial_tcp ∷ eof ∷ [])

is_timeout : Message → Bool
unfolding has_any
is_timeout m = has_any m (timeout ∷ io_timeout ∷ deadline_exceeded ∷ [])

is_authentication : Message → Bool
unfolding has_any
is_authentication m = has_any m (
    authentication ∷ access_denied ∷ unauthorized ∷ invalid_credentials ∷ wrong_password ∷ wrongpass
    ∷ noauth ∷ [])

is_permission : Message → Bool
unfolding has_any
is_permission m = has_any m (permission_denied ∷ forbidden ∷ not_allowed ∷ [])

is_resource : Message → Bool
unfolding has_any
is_resource m =
    has_any m (too_many_connections ∷ connection_pool ∷ resource_temporarily_unavailable ∷ [])

is_transport : Message → Bool
unfolding has_any
is_transport m = has_any m (ttransport ∷ transport_error ∷ [])

retry_in : Category → ℕ → DatasourceError
retry_in c n = record { category = c; retryable = true; retry_after = n * second }

give_up : Category → DatasourceError
give_up c = record { category = c; retryable = false; retry_after = 0 }

unfoldable pub classify_error : Message → DatasourceError
unfolding is_connection is_timeout is_authentication is_permission is_resource is_transport retry_in
    give_up
classify_error m =
    if is_connection m
    then retry_in connection_error 2
    else if is_timeout m
    then retry_in timeout_error 5
    else if is_authentication m
    then give_up authentication_error
    else if is_permission m
    then give_up permission_error
    else if is_resource m
    then retry_in resource_error 3
    else if is_transport m
    then retry_in connection_error 2
    else give_up query_error

pub record RetryConfig : Type 0 where
  pub max_attempts : ℕ
  pub base_delay : ℕ
  pub max_delay : ℕ
  pub multiplier : ℕ

unfoldable pub default_retry_config : RetryConfig
default_retry_config = record {
  max_attempts = 3;
  base_delay = second;
  max_delay = 30 * second;
  multiplier = 2;
}

unfoldable pub calculate_delay : ℕ → RetryConfig → ℕ
calculate_delay attempt cfg =
    let delay = cfg.base_delay * cfg.multiplier ^ (attempt - 1) in
    if ltb cfg.max_delay delay then cfg.max_delay else delay

pub data Answer (R : Type 0) : Type 0 where
  rows : R → Answer R
  fails : Message → Answer R

-- `gives_up` is the error of a query that is not worth a retry, `exhausted` has the last error, if any.
pub data Result (R : Type 0) : Type 0 where
  succeeds : R → Result R
  cancelled : Result R
  gives_up : DatasourceError → Result R
  exhausted : Option Message → Result R

-- The next attempt waits as the error says, if it does.
unfoldable pub next_config : DatasourceError → RetryConfig → RetryConfig
next_config e cfg = if ltb 0 e.retry_after then record cfg { base_delay = e.retry_after } else cfg

-- `wait` waits for a number of nanoseconds, or until the context is done: it tells which.
module _ {S R : Type 0} (wait : ℕ → S → S × Bool) (query : S → S × Answer R) where
  -- The delay before an attempt, none before the first.
  unfoldable pub pause : ℕ → RetryConfig → S → S × Bool
  pause zero cfg s = (s, false)
  pause (suc n) cfg s = wait (calculate_delay (suc n) cfg) s

  -- `again` is the rest of the loop.
  unfoldable pub after_query :
      (again : RetryConfig → Option Message → S → S × Result R)
      → RetryConfig
      → S × Answer R
      → S × Result R
  after_query again cfg (s, rows r) = (s, succeeds r)
  after_query again cfg (s, fails m) =
      let e = classify_error m in
      elim e.retryable [ true ↦ again (next_config e cfg) (some m) s | false ↦ (s, gives_up e) ]

  unfoldable pub after_pause :
      (again : RetryConfig → Option Message → S → S × Result R)
      → RetryConfig
      → S × Bool
      → S × Result R
  after_pause again cfg (s, true) = (s, cancelled)
  after_pause again cfg (s, false) = after_query again cfg (query s)

  -- `left` attempts remain, `attempt` have been made.
  unfoldable pub retry_loop : ℕ → ℕ → RetryConfig → Option Message → S → S × Result R
  retry_loop zero attempt cfg last s = (s, exhausted last)
  retry_loop (suc left) attempt cfg last s =
      after_pause (retry_loop left (suc attempt)) cfg (pause attempt cfg s)

  unfoldable pub with_retry : RetryConfig → S → S × Result R
  with_retry cfg s = retry_loop cfg.max_attempts 0 cfg none s
