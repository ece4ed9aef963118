-- ===== src/Tests/Runners.antt =====
-- The theorems on the executor's tasks where two tasks have entered and one of them has registered.
use bdopsflow.Prelude.{◌≡◌, refl, true, suc, ◌+◌}
use bdopsflow.Prelude.Int.{pos}
use bdopsflow.Runner.{TaskExecutor, new_task_executor, enter, register, is_running, shutdown}
use bdopsflow.Runner.Waiting.{Reaches, starts, enters, registers, Reaches-counts, shutdown-misses}

abbrev busy : TaskExecutor
busy = register 7 3 (enter (enter new_task_executor).0).0

busy_reached : Reaches 1 1 busy
unfolding new_task_executor enter
busy_reached = registers 7 3 (enters (enters starts refl) refl)

Reaches-counts_example : (busy.task_wg ≡ 1 + 1) × (busy.pool_running ≡ pos 1)
Reaches-counts_example = Reaches-counts busy_reached

shutdown-misses_example :
    ((shutdown (register 8 4 (shutdown busy))).cancelled ≡ (shutdown busy).cancelled)
    × (is_running 8 (register 8 4 (shutdown busy)).running_tasks ≡ true)
    × ((register 8 4 (shutdown busy)).task_wg ≡ suc (0 + 1))
shutdown-misses_example = shutdown-misses 0 1 8 4 busy busy_reached
