-- ===== src/Tasks/Recovery/Dead.antt =====
-- What a leader does every minute with the executions that were created five minutes ago or earlier and
-- still run (cleanupDeadTasks of scheduler/internal/service/cleanup_service.go).
use bdopsflow.Prelude.{
  ℕ, zero, suc, Bool, true, false, ◌||◌, List, [], ◌∷◌, Option, none, some, if◌then◌else◌,
}
use bdopsflow.Prelude.Int.{ℤ, pos, negsuc}
use bdopsflow.Redis.{Reply, ok, err}
use bdopsflow.Tasks.Interface.{failed, del_keys, start_failure, Backend}
use bdopsflow.Tasks.{is_stale, update_execution_result}
use bdopsflow.Tasks.Recovery.{
  Seen, Probe, Health, should_fail, has_timed_out, renewed_ago, lacks_renewal,
}

-- A row of the query: the timeout is 300 where the task has none, and the executor's status is joined.
pub record StuckExec : Type 0 where
  pub task_id : ℕ
  pub execution_id : ℕ
  pub start : Option ℕ
  pub timeout_seconds : ℤ
  pub executor_id : ℕ
  pub was_online : Bool

limit_of : ℤ → Option ℕ
limit_of (pos zero) = none
limit_of (pos (suc n)) = some (suc n)
limit_of (negsuc n) = none

module _ {S : Type 0} (b : Backend S) (p : Probe S) where
  -- `now_online` is the second query, for the executors that were not online in the first.
  executor_online : (now_online : ℕ → Bool) → StuckExec → Bool
  executor_online now_online x = elim x.executor_id [
    | zero ↦ true
    | suc k ↦ now_online (suc k) || x.was_online
  ]

  pings : ℕ → S → Reply Seen → Bool
  pings id s err = false
  pings id s (ok x) = p.ping id s

  executor_reachable : Bool → StuckExec → S → Bool
  unfolding pings
  executor_reachable is_online x s = elim x.executor_id [
    | zero ↦ true
    | suc k ↦ if is_online then pings (suc k) s (p.get_executor (suc k) s) else true
  ]

  -- The renewals are read once, before the loop.
  unfoldable pub dead_health : (ℕ → Bool) → (ℕ → Reply (Option ℕ)) → ℕ → StuckExec → S → Health
  unfolding executor_online executor_reachable limit_of
  dead_health now_online renewal now x s =
      let is_online = executor_online now_online x in
      let last = renewal x.execution_id in
      record {
        executor_online = is_online;
        recently_active = true;
        reachable = executor_reachable is_online x s;
        no_renewal = lacks_renewal last;
        renewal_expired = is_stale (limit_of x.timeout_seconds) (renewed_ago last now);
        task_timeout = has_timed_out (limit_of x.timeout_seconds) x.start now;
      }

  unfoldable pub clean_one : (ℕ → Bool) → (ℕ → Reply (Option ℕ)) → ℕ → StuckExec → S → S
  clean_one now_online renewal now x s =
      if should_fail (dead_health now_online renewal now x s)
      then b.perform (start_failure x.task_id x.execution_id) (
          b.perform (del_keys x.execution_id) (update_execution_result b x.execution_id failed s).0)
      else s

  unfoldable pub clean_dead : (ℕ → Bool) → (ℕ → Reply (Option ℕ)) → ℕ → List StuckExec → S → S
  clean_dead now_online renewal now [] s = s
  clean_dead now_online renewal now (x ∷ xs) s =
      clean_dead now_online renewal now xs (clean_one now_online renewal now x s)

  unfoldable pub clean_reply : (S → ℕ → Bool) → ℕ → S → Reply (List StuckExec) → S
  clean_reply now_online now s err = s
  clean_reply now_online now s (ok xs) = clean_dead (now_online s) (λ e. b.get_renew e s) now xs s

  -- `stuck_rows` and `now_online` are the two queries.
  unfoldable pub cleanup_dead_tasks : (S → Reply (List StuckExec)) → (S → ℕ → Bool) → ℕ → S → S
  unfolding clean_reply
  cleanup_dead_tasks stuck_rows now_online now s = clean_reply now_online now s (stuck_rows s)
