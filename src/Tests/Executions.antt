-- ===== src/Tests/Executions.antt =====
-- The executions' theorems on a backend whose state is the table, and that never fails.
use bdopsflow.Prelude.{
  ℕ, suc, ◌⊎◌, ◌≤◌, ◌≡◌, refl, true, false, List, [], ◌∷◌, ◌++◌, Option, none, some, arith,
  if◌then◌else◌, ◌==◌,
}
use bdopsflow.Prelude.Int.{pos}
use bdopsflow.Redis.{ok}
use bdopsflow.Tasks.Interface.{
  running, success, failed, Task, Executor, Execution, done, Backend, Rows, set_status, is_running,
  is_running_of,
}
use bdopsflow.Tasks.{
  started, dispatch_task_execution, update_execution_result, choose_executor, renewal_limit,
}
use bdopsflow.Tasks.Dispatch.{Writes, Accepts}
use bdopsflow.Tasks.Control.{
  trigger_task, retry_task, cancel_execution, retry_task, retry_or_give_up, is_alive, clean_stale,
  handle_task_failure,
}
use bdopsflow.Tasks.Control.Cancel.{Cancels, cancel_execution-Cancels}
use bdopsflow.Tasks.Control.Runs.{run_count, has_running, Finds}
use bdopsflow.Tasks.Control.Overlap.{trigger_task-run_count, retry_task-overlaps}
use bdopsflow.GrpcServer.{report_task_result}
use bdopsflow.GrpcServer.Reports.{report_task_result-rows}
use bdopsflow.Tasks.Recovery.{Found, Probe, recover_one}
use bdopsflow.Tasks.Recovery.Outcomes.{IsLive, recover_one-IsLive}

abbrev Table : Type 0
Table = List Execution

abbrev rows : Table → List Execution
rows s = s

abbrev task : ℕ → Task
task t = record {
  id = t;
  domain_id = 1;
  timeout_seconds = pos 30;
  retry_count = 3;
  has_cron_expression = false;
  assigned_executor_id = 0;
}

abbrev worker : Executor
worker = record { id = 1; is_online = true; current_load = 0; capacity = 4 }

find_running : ℕ → List Execution → Option ℕ
find_running t [] = none
find_running t (x ∷ xs) =
    let rest = find_running t xs in if is_running_of t x then some x.execution_id else rest

find_row : ℕ → List Execution → Option (Execution × ℕ)
find_row e [] = none
find_row e (x ∷ xs) = let rest = find_row e xs in if x.execution_id == e then some (x, 1) else rest

abbrev backend : Backend Table
backend = record {
  perform = λ x s. s;
  lock_nx = λ e ttl s. (s, ok true);
  retry_lock_nx = λ t s. (s, ok true);
  insert = λ x s. (s ++ x ∷ [], done);
  update_status = λ e st s. (set_status e st s, done);
  get_renew = λ e s. ok none;
  get_task = λ t s. ok (task t);
  get_executor = λ x s. ok worker;
  select_executor = λ d s. ok worker;
  running_execution = λ t s. ok (find_running t s);
  get_execution = λ e s. ok (find_row e s);
  get_retry_times = λ e s. ok 0;
  dispatch = λ x t e s. (s, ok tt);
}

table_laws : Rows backend rows
table_laws = record {
  perform_rows = λ x s. refl;
  lock_nx_rows = λ e ttl s. refl;
  retry_lock_nx_rows = λ t s. refl;
  dispatch_rows = λ x t e s. refl;
  insert_done = λ x s h. refl;
  insert_not = λ x s h. absurd (h refl);
  update_done = λ e st s h. refl;
  update_not = λ e st s h. absurd (h refl);
}

table_writes : Writes backend
table_writes = record { inserts = λ x s p. cc }

finds_some : (t r : ℕ) (s : Table) → find_running t s ≡ some r → has_running t r s ≡ true
unfolding find_running has_running is_running_of
finds_some t r [] h = cc
finds_some t r (x ∷ xs) h = ground (arith, finds_some t r xs)

finds_none : (t : ℕ) (s : Table) → find_running t s ≡ none → run_count t s ≡ 0
unfolding find_running run_count
finds_none t [] h = refl
finds_none t (x ∷ xs) h = ground (arith, finds_none t xs)

table-Finds : Finds backend rows
table-Finds = record {
  finds_some = λ t r s h. finds_some t r s cc;
  finds_none = λ t s h. finds_none t s cc;
  finds_task = λ t s u h. ground arith;
}

-- Execution 7 of task 3 runs.
abbrev one_runs : Table
one_runs = record { execution_id = 7; task_id = 3; status = running; retry_times = 0 } ∷ []

one_runs-le : (u : ℕ) → run_count u one_runs ≤ 1
unfolding run_count
one_runs-le u = ground arith

carried_out : (r : ℕ) → (update_execution_result backend r failed one_runs).1 ≡ true
unfolding update_execution_result
carried_out r = refl

trigger_task-run_count_example :
    run_count 3 (trigger_task backend true true 3 8 9 100 one_runs).0 ≤ 1
trigger_task-run_count_example =
    trigger_task-run_count backend rows table_laws table_writes table-Finds true true 3 8 9 100
      one_runs (λ p. cc) (λ r h. carried_out r) one_runs-le 3

cancel_execution-Cancels_example :
    Cancels backend rows table_laws 7 one_runs (cancel_execution backend true 7 one_runs)
cancel_execution-Cancels_example = cancel_execution-Cancels backend rows table_laws true 7 one_runs

-- The stale execution of task 3 is failed, and the new one runs.
trigger_run : trigger_task backend true true 3 8 9 100 one_runs ≡ (
  record { execution_id = 7; task_id = 3; status = failed; retry_times = 0 }
      ∷ record { execution_id = 9; task_id = 3; status = running; retry_times = 0 }
      ∷ [],
  started 9,
)
unfolding trigger_task retry_task dispatch_task_execution set_status find_running is_running_of
    is_alive clean_stale update_execution_result handle_task_failure renewal_limit is_running
    choose_executor retry_or_give_up
trigger_run = refl

backend-Accepts : Accepts backend (task 3)
unfolding choose_executor
backend-Accepts = record {
  locks = λ e ttl s. refl;
  inserted = λ x s. refl;
  chosen = λ s h. cc;
  sent = λ x e s. refl;
}

-- Execution 7 still runs.
retry_task-overlaps_example :
    ((retry_task backend true 3 9 1 100 one_runs).1 ≡ started 9)
    × (run_count 3 (retry_task backend true 3 9 1 100 one_runs).0 ≡ suc (run_count 3 one_runs))
retry_task-overlaps_example =
    retry_task-overlaps backend rows table_laws table_writes table-Finds 3 9 1 100 one_runs (task 3)
      refl backend-Accepts

abbrev found : Found
found = record { execution_id = 7; task_id = 3; executor_id = 1; start = some 90 }

abbrev probe : Probe Table
probe = record {
  running_rows = λ s. ok (found ∷ []);
  get_executor = λ x s. ok (record { is_online = true; last_heartbeat = some 95 });
  ping = λ x s. true;
}

-- There is no renewal of execution 7.
recover_one-IsLive_example :
    (IsLive backend probe found 100 one_runs
      × (recover_one backend probe 100 found one_runs ≡ one_runs))
    ⊎ (¬ IsLive backend probe found 100 one_runs
        × (recover_one backend probe 100 found one_runs ≡ (
            if (update_execution_result backend 7 failed one_runs).1
            then set_status 7 failed one_runs
            else one_runs)))
recover_one-IsLive_example = recover_one-IsLive backend rows table_laws probe found 100 one_runs

report_task_result-rows_example : report_task_result backend 3 7 success one_runs ≡ (
    if (update_execution_result backend 7 success one_runs).1
    then set_status 7 success one_runs
    else one_runs)
report_task_result-rows_example =
    report_task_result-rows backend rows table_laws 3 7 success one_runs
