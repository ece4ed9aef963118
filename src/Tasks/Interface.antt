-- ===== src/Tasks/Interface.antt =====
-- What scheduler/internal/service/{task_service,execution_service,cleanup_service}.go use: the tables
-- of rqlite, the keys of Redis and the gRPC stream to the executors are parameters. A call whose reply
-- the code ignores is an `Effect`; the others are fields with their replies, and `Rows` is what the
-- theorems say of the table of executions. Execution ids, names and texts are numbers.
use bdopsflow.Prelude.{
  ℕ, ◌≡◌, ◌≢◌, Bool, true, false, ◌&&◌, List, [], ◌∷◌, ◌++◌, Option, if◌then◌else◌, ◌==◌,
}
use bdopsflow.Prelude.Int.{ℤ}
use bdopsflow.Redis.{Reply}

pub data Status : Type 0 where
  pending running success failed timeout skipped : Status

unfoldable pub is_running : Status → Bool
is_running running = true
is_running pending = false
is_running success = false
is_running failed = false
is_running timeout = false
is_running skipped = false

-- A number that is not positive is 0 in `retry_count` and `assigned_executor_id`.
pub record Task : Type 0 where
  pub id : ℕ
  pub domain_id : ℕ
  pub timeout_seconds : ℤ
  pub retry_count : ℕ
  pub has_cron_expression : Bool
  pub assigned_executor_id : ℕ

pub record Executor : Type 0 where
  pub id : ℕ
  pub is_online : Bool
  pub current_load : ℕ
  pub capacity : ℕ

-- A row of `bdopsflow_task_executions`.
pub record Execution : Type 0 where
  pub execution_id : ℕ
  pub task_id : ℕ
  pub status : Status
  pub retry_times : ℕ

-- A write: carried out, refused by the statement (`result.Err`), or failed (`err`).
pub data Write : Type 0 where
  done refused failed_write : Write

-- DEL of the lock of an execution, or of its lock, renewal and failure count; SET of its renewal with a
-- time to live in nanoseconds, and of its lock in seconds; DEL of its failure count, and of the lock on retries of a task; the columns of the task and of the
-- execution that are not read here; logs, webhooks, signals to executors, and the start of the goroutines
-- that retry a task and that handle its failure.
pub data Effect : Type 0 where
  del_lock del_keys : (execution_id : ℕ) → Effect
  set_renew : (execution_id now : ℕ) → ℤ → Effect
  set_lock : (execution_id ttl : ℕ) → Effect
  del_fail_count : (execution_id : ℕ) → Effect
  del_retry_lock touch_task : (task_id : ℕ) → Effect
  set_task_status : (task_id : ℕ) → Status → Effect
  set_executor : (execution_id executor_id : ℕ) → Effect
  add_log : (execution_id task_id : ℕ) → Effect
  notify : (task_id execution_id : ℕ) → Status → Effect
  cancel_signal : (executor_id execution_id : ℕ) → Effect
  start_retry : (task_id execution_id retry_times : ℕ) → Effect
  start_failure : (task_id execution_id : ℕ) → Effect

pub record Backend (S : Type 0) : Type 0 where
  pub perform : Effect → S → S
  pub lock_nx : (execution_id ttl : ℕ) → S → S × Reply Bool
  pub retry_lock_nx : (task_id : ℕ) → S → S × Reply Bool
  pub insert : Execution → S → S × Write
  pub update_status : (execution_id : ℕ) → Status → S → S × Write
  pub get_renew : (execution_id : ℕ) → S → Reply (Option ℕ)
  pub get_task : ℕ → S → Reply Task
  pub get_executor : ℕ → S → Reply Executor
  pub select_executor : (domain_id : ℕ) → S → Reply Executor
  pub running_execution : (task_id : ℕ) → S → Reply (Option ℕ)
  pub get_execution : (execution_id : ℕ) → S → Reply (Option (Execution × ℕ))
  pub get_retry_times : (execution_id : ℕ) → S → Reply ℕ
  pub dispatch : Executor → Task → (execution_id : ℕ) → S → S × Reply (Unit {0})

-- UPDATE … WHERE execution_id = ?.
unfoldable pub set_status : ℕ → Status → List Execution → List Execution
set_status e st [] = []
set_status e st (x ∷ xs) =
    let rest = set_status e st xs in
    if x.execution_id == e then record x { status = st } ∷ rest else x ∷ rest

-- The executions of a task that are running.
unfoldable pub is_running_of : ℕ → Execution → Bool
is_running_of task_id x = x.task_id == task_id && is_running x.status

-- The statements on the table of executions: INSERT adds the row, UPDATE sets the status, and a write that
-- is not carried out changes no row; nothing else changes the rows. `SELECT … WHERE task_id = ? AND
-- status = 'running' … LIMIT 1` gives a running execution of the task if there is one.
pub record Rows {S : Type 0} (b : Backend S) (rows : S → List Execution) : Type 0 where
  pub perform_rows : (x : Effect) (s : S) → rows (b.perform x s) ≡ rows s
  pub lock_nx_rows : (e ttl : ℕ) (s : S) → rows (b.lock_nx e ttl s).0 ≡ rows s
  pub retry_lock_nx_rows : (t : ℕ) (s : S) → rows (b.retry_lock_nx t s).0 ≡ rows s
  pub dispatch_rows :
      (x : Executor) (t : Task) (e : ℕ) (s : S) → rows (b.dispatch x t e s).0 ≡ rows s
  pub insert_done :
      (x : Execution) (s : S) → (b.insert x s).1 ≡ done → rows (b.insert x s).0 ≡ rows s ++ x ∷ []
  pub insert_not :
      (x : Execution) (s : S) → (b.insert x s).1 ≢ done → rows (b.insert x s).0 ≡ rows s
  pub update_done :
      (e : ℕ) (st : Status) (s : S)
      → (b.update_status e st s).1 ≡ done
      → rows (b.update_status e st s).0 ≡ set_status e st (rows s)
  pub update_not :
      (e : ℕ) (st : Status) (s : S)
      → (b.update_status e st s).1 ≢ done
      → rows (b.update_status e st s).0 ≡ rows s
