-- ===== src/Runner.antt =====
-- executor/internal/executor/task_executor.go: the tasks that an executor runs. The state has the map of
-- running tasks, the counts of `taskWg` and of the pool, and a log of the contexts that were cancelled and of
-- the results that were reported. A task's goroutine takes three steps: it enters, it registers, and it
-- finishes with the result of the task, which an HTTP request or a process gives.
pub mod Waiting
use bdopsflow.Prelude.{
  ℕ, ◌+◌, ◌-◌, Bool, true, false, List, [], ◌∷◌, ◌++◌, map, if◌then◌else◌, ◌==◌, any,
}
use bdopsflow.Prelude.Int.{ℤ, pos, ◌+ℤ◌, ◌-ℤ◌}

pub record RunningTaskInfo : Type 0 where
  pub execution_id : ℕ
  pub task_id : ℕ
  pub current_progress : ℕ

pub record TaskResult : Type 0 where
  pub result_id : ℕ
  pub is_success : Bool

pub record TaskExecutor : Type 0 where
  pub running_tasks : List RunningTaskInfo
  pub pool_running : ℤ
  pub task_wg : ℕ
  pub shutting_down : Bool
  pub cancelled : List ℕ
  pub reported : List TaskResult

unfoldable pub new_task_executor : TaskExecutor
new_task_executor = record {
  running_tasks = [];
  pool_running = pos 0;
  task_wg = 0;
  shutting_down = false;
  cancelled = [];
  reported = [];
}

unfoldable pub remove_running_task : ℕ → List RunningTaskInfo → List RunningTaskInfo
remove_running_task e [] = []
remove_running_task e (x ∷ xs) =
    let rest = remove_running_task e xs in if x.execution_id == e then rest else x ∷ rest

unfoldable pub is_running : ℕ → List RunningTaskInfo → Bool
is_running e xs = any (λ x. x.execution_id == e) xs

-- A task that comes during the shutdown is dropped without a report.
unfoldable pub enter : TaskExecutor → TaskExecutor × Bool
enter s = if s.shutting_down then (s, false) else (record s { task_wg = s.task_wg + 1 }, true)

unfoldable pub register : ℕ → ℕ → TaskExecutor → TaskExecutor
register e t s = record s {
  running_tasks =
      record { execution_id = e; task_id = t; current_progress = 0 }
      ∷ remove_running_task e s.running_tasks;
  pool_running = s.pool_running +ℤ pos 1;
}

-- The deferred calls run in the reverse order: the pool, the map, the context, the group.
unfoldable pub finish : ℕ → Bool → TaskExecutor → TaskExecutor
finish e ok s = record s {
  reported = s.reported ++ record { result_id = e; is_success = ok } ∷ [];
  pool_running = s.pool_running -ℤ pos 1;
  running_tasks = remove_running_task e s.running_tasks;
  cancelled = s.cancelled ++ e ∷ [];
  task_wg = s.task_wg - 1;
}

unfoldable pub cancel_task : ℕ → TaskExecutor → TaskExecutor × Bool
cancel_task e s =
    if is_running e s.running_tasks
    then (record s { cancelled = s.cancelled ++ e ∷ [] }, true)
    else (s, false)

set_progress : ℕ → ℕ → List RunningTaskInfo → List RunningTaskInfo
set_progress e n [] = []
set_progress e n (x ∷ xs) =
    let rest = set_progress e n xs in
    if x.execution_id == e then record x { current_progress = n } ∷ rest else x ∷ rest

unfoldable pub update_task_progress : ℕ → ℕ → TaskExecutor → TaskExecutor
unfolding set_progress
update_task_progress e n s = record s { running_tasks = set_progress e n s.running_tasks }

-- It then waits for the group, up to its timeout.
unfoldable pub shutdown : TaskExecutor → TaskExecutor
shutdown s = if s.shutting_down then s else record s {
  shutting_down = true;
  cancelled = s.cancelled ++ map (λ x. x.execution_id) s.running_tasks;
}
