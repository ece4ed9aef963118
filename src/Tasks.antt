-- ===== src/Tasks.antt =====
-- scheduler/internal/service/task_service.go: how a task is triggered, dispatched and retried, with
-- UpdateExecutionResult of execution_service.go. The state is that of the backend; an error is returned
-- as a value that says which return it was. The goroutine that retries is a step of its own. A clock
-- value is an argument, and so is the id of a new execution, which is made from the clock.
pub mod Interface
pub mod Control
pub mod Dispatch
pub mod Lifetime
pub mod Recovery
use bdopsflow.Prelude.{
  ℕ, zero, suc, ◌+◌, ◌-◌, ◌*◌, ◌%◌, ◌^◌, Bool, true, false, not, ◌&&◌, Option, none, some,
  if◌then◌else◌, ltb, leb,
}
use bdopsflow.Prelude.Int.{ℤ, pos, negsuc}
use bdopsflow.Redis.{Reply, ok, err}
use bdopsflow.Tasks.Interface.{
  Status, running, failed, skipped, Task, Executor, Execution, Write, done, refused, failed_write,
  Effect, del_lock, del_keys, set_renew, del_retry_lock, touch_task, set_task_status, set_executor,
  add_log, notify, start_retry, Backend,
}

pub data TaskError : Type 0 where
  lock_conflict create_failed no_executor no_dispatcher dispatch_failed not_leader : TaskError
  already_running task_not_found : TaskError

pub data Outcome : Type 0 where
  started : (execution_id : ℕ) → Outcome
  failed_with : TaskError → Outcome

-- The time to live of the lock of an execution, in seconds: twice the timeout, within 60 and 7200.
abbrev clamp : ℕ → ℕ
clamp n = if ltb n 60 then 60 else if ltb 7200 n then 7200 else n

unfoldable pub lock_ttl : ℤ → ℕ
lock_ttl (pos zero) = 3600
lock_ttl (pos (suc n)) = clamp (suc n * 2)
lock_ttl (negsuc n) = 60

-- An int64 of a product that may wrap around.
abbrev pub int64 : ℕ → ℤ
int64 n = let w = n % 2 ^ 64 in if ltb w (2 ^ 63) then pos w else negsuc (2 ^ 64 - w - 1)

abbrev pub nanoseconds : ℕ
nanoseconds = 1_000_000_000

-- `time.Duration(lockTTL) * time.Second`, where `lockTTL` is a duration already.
unfoldable pub renew_ttl : ℕ → ℤ
renew_ttl ttl = int64 (ttl * nanoseconds * nanoseconds)

-- The seconds after which a renewal is too old, none if the task has no timeout.
unfoldable pub renewal_limit : Reply Task → Option ℕ
renewal_limit err = some 300
renewal_limit (ok t) = elim t.timeout_seconds [
  | pos zero ↦ none
  | pos (suc n) ↦ some (suc n)
  | negsuc n ↦ none
]

unfoldable pub is_stale : Option ℕ → ℕ → Bool
is_stale none ago = false
is_stale (some limit) ago = ltb limit ago

module _ {S : Type 0} (b : Backend S) where
  -- An error of the statement or of the call leaves the keys as they are.
  after_update : ℕ → S × Write → S × Bool
  after_update e (s, done) = (b.perform (del_keys e) s, true)
  after_update e (s, refused) = (s, false)
  after_update e (s, failed_write) = (s, false)

  -- The Boolean tells whether there is no error.
  unfoldable pub update_execution_result : ℕ → Status → S → S × Bool
  unfolding after_update
  update_execution_result e st s = after_update e (b.update_status e st s)

  has_cron : Reply Task → Bool
  has_cron err = false
  has_cron (ok t) = t.has_cron_expression

  -- `UpdateTaskStatusByID`: a task with a cron expression keeps its status.
  pub update_task_status_by_id : ℕ → Status → S → S
  unfolding has_cron
  update_task_status_by_id t st s =
      if has_cron (b.get_task t s)
      then b.perform (touch_task t) s
      else b.perform (set_task_status t st) s

  -- What follows each error after the record was created.
  pub fail_dispatch : ℕ → ℕ → S → S
  unfolding update_task_status_by_id
  fail_dispatch t e s = b.perform (del_lock e) (
      b.perform (notify t e failed) (
        b.perform (add_log e t)
          (update_task_status_by_id t failed (update_execution_result e failed s).0)))

  assigned : Reply Executor → Option Executor
  assigned err = none
  assigned (ok x) =
      if x.is_online then if ltb x.current_load x.capacity then some x else none else none

  selected : Reply Executor → Option Executor
  selected err = none
  selected (ok x) = some x

  -- The executor that the task names, if it is online and has room, or one that is selected.
  unfoldable pub choose_executor : Task → S → Option Executor
  unfolding assigned selected
  choose_executor t s = elim t.assigned_executor_id [
    | zero ↦ selected (b.select_executor t.domain_id s)
    | suc k ↦ assigned (b.get_executor (suc k) s)
  ]

  after_dispatch : Task → ℕ → ℕ → S × Reply (Unit {0}) → S × Outcome
  after_dispatch t e now (s, err) = (fail_dispatch t.id e s, failed_with dispatch_failed)
  after_dispatch t e now (s, ok u) = (
    b.perform (set_renew e now (renew_ttl (lock_ttl t.timeout_seconds)))
        (b.perform (add_log e t.id) s),
    started e,
  )

  to_executor : Bool → Task → ℕ → ℕ → S → Option Executor → S × Outcome
  unfolding after_dispatch
  to_executor has t e now s none = (fail_dispatch t.id e s, failed_with no_executor)
  to_executor false t e now s (some x) = (fail_dispatch t.id e s, failed_with no_dispatcher)
  to_executor true t e now s (some x) =
      after_dispatch t e now (b.dispatch x t e (b.perform (set_executor e x.id) s))

  unlock_if : Bool → ℕ → S → S
  unlock_if lock_set e s = if lock_set then b.perform (del_lock e) s else s

  -- Only the error of the call is looked at after the INSERT, not that of the statement.
  after_insert : Bool → Bool → Task → ℕ → ℕ → S × Write → S × Outcome
  unfolding to_executor unlock_if
  after_insert has lock_set t e now (s, failed_write) =
      (unlock_if lock_set e s, failed_with create_failed)
  after_insert has lock_set t e now (s, done) = to_executor has t e now s (choose_executor t s)
  after_insert has lock_set t e now (s, refused) = to_executor has t e now s (choose_executor t s)

  unfoldable pub new_execution : Task → ℕ → ℕ → Execution
  new_execution t e retry_times = record {
    execution_id = e;
    task_id = t.id;
    status = running;
    retry_times = retry_times;
  }

  -- An error of SET NX is logged, and the dispatch goes on without the lock.
  after_lock : Bool → Task → ℕ → ℕ → ℕ → S × Reply Bool → S × Outcome
  unfolding after_insert new_execution
  after_lock has t e retry_times now (s, ok false) = (s, failed_with lock_conflict)
  after_lock has t e retry_times now (s, ok true) =
      after_insert has true t e now (b.insert (new_execution t e retry_times) s)
  after_lock has t e retry_times now (s, err) =
      after_insert has false t e now (b.insert (new_execution t e retry_times) s)

  -- `has` tells whether a dispatcher is set.
  unfoldable pub dispatch_task_execution : Bool → Task → ℕ → ℕ → ℕ → S → S × Outcome
  unfolding after_lock
  dispatch_task_execution has t e retry_times now s =
      after_lock has t e retry_times now (b.lock_nx e (lock_ttl t.timeout_seconds) s)
