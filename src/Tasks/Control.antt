-- ===== src/Tasks/Control.antt =====
-- TriggerTask, RetryTask and HandleTaskFailure of scheduler/internal/service/task_service.go,
-- CancelExecution of execution_service.go and forceFailTask of cleanup_service.go.
pub mod Cancel
pub mod Overlap
pub mod Runs
use bdopsflow.Prelude.{
  ℕ, zero, suc, ◌+◌, ◌-◌, Bool, true, false, Option, none, some, if◌then◌else◌, ltb,
}
use bdopsflow.Redis.{Reply, ok, err}
use bdopsflow.Tasks.Interface.{
  Status, pending, running, success, failed, timeout, skipped, Task, Executor, Execution, Write,
  done, refused, failed_write, del_keys, del_retry_lock, add_log, notify, cancel_signal,
  start_retry, start_failure, Backend,
}
use bdopsflow.Tasks.{
  TaskError, not_leader, already_running, task_not_found, Outcome, started, failed_with,
  renewal_limit, is_stale, update_execution_result, update_task_status_by_id,
  dispatch_task_execution,
}

pub data CancelError : Type 0 where
  query_failed not_found not_active update_failed : CancelError

pub data Cancelled : Type 0 where
  was_cancelled : Cancelled
  not_cancelled : CancelError → Cancelled

unfoldable pub is_cancellable : Status → Bool
is_cancellable pending = true
is_cancellable running = true
is_cancellable success = false
is_cancellable failed = false
is_cancellable timeout = false
is_cancellable skipped = false

module _ {S : Type 0} (b : Backend S) where
  -- The task is marked as failed, and its webhook told.
  give_up : ℕ → ℕ → S → S
  give_up t e s = b.perform (notify t e failed) (update_task_status_by_id b t failed s)

  -- `currentRetryTimes < maxRetries` decides; the retry lock stays for the goroutine.
  unfoldable pub retry_or_give_up : ℕ → ℕ → ℕ → ℕ → S → S
  unfolding give_up
  retry_or_give_up t e max_retries n s =
      if ltb n max_retries
      then b.perform (start_retry t e (n + 1)) s
      else give_up t e (b.perform (del_retry_lock t) s)

  after_retry_times : ℕ → ℕ → ℕ → S → Reply ℕ → S × Bool
  unfolding give_up
  after_retry_times t e max_retries s err = (give_up t e (b.perform (del_retry_lock t) s), false)
  after_retry_times t e max_retries s (ok n) = (retry_or_give_up t e max_retries n s, true)

  -- An error of SET NX counts as the lock taken.
  after_retry_lock : ℕ → ℕ → ℕ → S × Reply Bool → S × Bool
  unfolding after_retry_times
  after_retry_lock t e max_retries (s, ok false) = (s, true)
  after_retry_lock t e max_retries (s, ok true) =
      after_retry_times t e max_retries s (b.get_retry_times e s)
  after_retry_lock t e max_retries (s, err) =
      after_retry_times t e max_retries s (b.get_retry_times e s)

  with_retries : ℕ → ℕ → ℕ → S → S × Bool
  unfolding give_up after_retry_lock
  with_retries t e zero s = (give_up t e s, true)
  with_retries t e (suc n) s = after_retry_lock t e (suc n) (b.retry_lock_nx t s)

  with_task : ℕ → ℕ → S → Reply Task → S × Bool
  unfolding give_up with_retries
  with_task t e s err = (give_up t e s, false)
  with_task t e s (ok task) = with_retries t e task.retry_count s

  unfoldable pub handle_task_failure : ℕ → ℕ → S → S × Bool
  unfolding with_task
  handle_task_failure t e s = with_task t e s (b.get_task t s)

  retry_dispatch : Bool → ℕ → ℕ → ℕ → S → Reply Task → S × Outcome
  retry_dispatch has e retry_times now s err = (s, failed_with task_not_found)
  retry_dispatch has e retry_times now s (ok t) =
      dispatch_task_execution b has t e retry_times now s

  unfoldable pub retry_task : Bool → ℕ → ℕ → ℕ → ℕ → S → S × Outcome
  unfolding retry_dispatch
  retry_task has task_id e retry_times now s =
      retry_dispatch has e retry_times now s (b.get_task task_id s)

  after_retry : ℕ → ℕ → S × Outcome → S
  unfolding give_up
  after_retry t e (s, started new_e) = s
  after_retry t e (s, failed_with x) = give_up t e s

  -- The goroutine after its sleep: `e` failed, `new_e` is the id of the new execution.
  unfoldable pub run_retry : Bool → Bool → ℕ → ℕ → ℕ → ℕ → ℕ → S → S
  unfolding give_up after_retry
  run_retry is_leader has t e new_e retry_times now s = b.perform (del_retry_lock t) (
      if is_leader
      then after_retry t e (retry_task has t new_e retry_times now s)
      else give_up t e s)

  -- An execution whose renewals have stopped is failed before the new one starts.
  unfoldable pub clean_stale : ℕ → ℕ → S → S
  clean_stale t e s =
      b.perform (del_keys e)
        (handle_task_failure t e
          (b.perform (add_log e t) (update_execution_result b e failed s).0)).0

  record_skip : ℕ → ℕ → S × Write → S
  record_skip t e (s, failed_write) = s
  record_skip t e (s, done) = b.perform (notify t e skipped) (b.perform (add_log e t) s)
  record_skip t e (s, refused) = b.perform (notify t e skipped) (b.perform (add_log e t) s)

  skipped_execution : ℕ → ℕ → Execution
  skipped_execution t e = record {
    execution_id = e;
    task_id = t;
    status = skipped;
    retry_times = 0;
  }

  -- Does the running execution still have a recent renewal?
  unfoldable pub is_alive : ℕ → ℕ → ℕ → S → Bool
  is_alive t e now s = elim (b.get_renew e s) [
    | err ↦ false
    | ok none ↦ false
    | ok (some last) ↦ elim (is_stale (renewal_limit (b.get_task t s)) (now - last)) [
      | true ↦ false
      | false ↦ true
    ]
  ]

  trigger_new : Bool → ℕ → ℕ → ℕ → S → S × Outcome
  trigger_new has t e now s = retry_task has t e 0 now s

  -- `skip_e` and `e` are the ids of a skipped and of a new execution. An error of the query counts as no
  -- execution that runs.
  after_check : Bool → ℕ → ℕ → ℕ → ℕ → S → Reply (Option ℕ) → S × Outcome
  unfolding clean_stale record_skip skipped_execution trigger_new
  after_check has t skip_e e now s err = trigger_new has t e now s
  after_check has t skip_e e now s (ok none) = trigger_new has t e now s
  after_check has t skip_e e now s (ok (some r)) =
      if is_alive t r now s
      then (
        record_skip t skip_e (b.insert (skipped_execution t skip_e) s),
        failed_with already_running,
      )
      else trigger_new has t e now (clean_stale t r s)

  unfoldable pub trigger_task : Bool → Bool → ℕ → ℕ → ℕ → ℕ → S → S × Outcome
  unfolding after_check
  trigger_task is_leader has t skip_e e now s =
      if is_leader
      then after_check has t skip_e e now s (b.running_execution t s)
      else (s, failed_with not_leader)

  pub send_signal : ℕ → S → Reply Executor → S
  send_signal e s err = s
  send_signal e s (ok x) = b.perform (cancel_signal x.id e) s

  -- An executor that cannot be read gets no signal; `has_notifier` tells whether there is a notifier.
  pub signal : Bool → ℕ → ℕ → S → S
  unfolding send_signal
  signal false executor_id e s = s
  signal true zero e s = s
  signal true (suc k) e s = send_signal e s (b.get_executor (suc k) s)

  pub after_cancel : ℕ → ℕ → S × Bool → S × Cancelled
  after_cancel t e (s, true) = (b.perform (add_log e t) s, was_cancelled)
  after_cancel t e (s, false) = (s, not_cancelled update_failed)

  -- The row, and the number of its executor (0 for none).
  pub cancel_row : Bool → ℕ → S → Reply (Option (Execution × ℕ)) → S × Cancelled
  unfolding after_cancel signal is_cancellable
  cancel_row has e s err = (s, not_cancelled query_failed)
  cancel_row has e s (ok none) = (s, not_cancelled not_found)
  cancel_row has e s (ok (some (x, executor_id))) =
      if is_cancellable x.status
      then after_cancel x.task_id e
          (update_execution_result b e failed (signal has executor_id e s))
      else (s, not_cancelled not_active)

  unfoldable pub cancel_execution : Bool → ℕ → S → S × Cancelled
  unfolding cancel_row
  cancel_execution has e s = cancel_row has e s (b.get_execution e s)

  unfoldable pub force_fail_task : ℕ → ℕ → S → S
  force_fail_task t e s =
      b.perform (start_failure t e)
        (b.perform (del_keys e) (b.perform (add_log e t) (update_execution_result b e failed s).0))
