-- ===== src/Tasks/Control/Runs.antt =====
-- Counting the running executions of a task (TriggerTask and RetryTask in
-- scheduler/internal/service/task_service.go).
use bdopsflow.Prelude.{
  ℕ, zero, suc, ◌+◌, ◌≤◌, ◌≡◌, refl, ◌∙◌, Bool, true, false, ◌&&◌, List, [], ◌∷◌, ◌++◌, none, some,
  if◌then◌else◌, ◌==◌, arith, any,
}
use bdopsflow.Redis.{Reply, ok, err}
use bdopsflow.Tasks.Interface.{
  failed, is_running, Task, Execution, notify, add_log, del_keys, del_retry_lock, start_retry,
  Backend, Rows, set_status, is_running_of,
}
use bdopsflow.Tasks.Control.{
  handle_task_failure, clean_stale, with_task, with_retries, after_retry_lock, after_retry_times,
  retry_or_give_up, give_up,
}
use bdopsflow.Tasks.{update_execution_result}
use bdopsflow.Tasks.Dispatch.{update_execution_result-rows, update_task_status_by_id-rows}

-- The number of running executions of a task.
unfoldable pub run_count : ℕ → List Execution → ℕ
run_count t [] = 0
run_count t (x ∷ xs) = let rest = run_count t xs in if is_running_of t x then suc rest else rest

pub run_count-append :
    (t : ℕ) (xs ys : List Execution) → run_count t (xs ++ ys) ≡ run_count t xs + run_count t ys
unfolding run_count
run_count-append t [] ys = omega arith
run_count-append t (x ∷ xs) ys = ground (arith, run_count-append t xs ys)

-- Failing an execution ends it.
pub run_count-failed-le :
    (t e : ℕ) (xs : List Execution) → run_count t (set_status e failed xs) ≤ run_count t xs
unfolding run_count set_status is_running_of is_running
run_count-failed-le t e [] = omega arith
run_count-failed-le t e (x ∷ xs) = ground (arith, run_count-failed-le t e xs)

-- Is there a running execution of the task with the id?
unfoldable pub has_running : ℕ → ℕ → List Execution → Bool
has_running t e xs = any (λ x. (x.execution_id == e) && is_running_of t x) xs

pub run_count-failed-lt :
    (t e : ℕ) (xs : List Execution)
    → has_running t e xs ≡ true
    → suc (run_count t (set_status e failed xs)) ≤ run_count t xs
unfolding run_count set_status is_running_of is_running has_running
run_count-failed-lt t e [] h = cc
run_count-failed-lt t e (x ∷ xs) h =
    ground (arith, run_count-failed-lt t e xs, run_count-failed-le t e xs)

-- A new execution that has failed does not run.
pub run_count-failed-new :
    (u : ℕ) (x : Execution) (xs : List Execution)
    → run_count u (set_status x.execution_id failed (xs ++ x ∷ [])) ≤ run_count u xs
unfolding run_count set_status is_running_of is_running
run_count-failed-new u x [] = ground arith
run_count-failed-new u x (y ∷ xs) = ground (arith, run_count-failed-new u x xs)

-- What the code relies on in the query for a running execution: where it answers, it gives one if there is one.
pub record Finds {S : Type 0} (b : Backend S) (rows : S → List Execution) : Type 0 where
  pub finds_some :
      (t r : ℕ) (s : S) → b.running_execution t s ≡ ok (some r) → has_running t r (rows s) ≡ true
  pub finds_none : (t : ℕ) (s : S) → b.running_execution t s ≡ ok none → run_count t (rows s) ≡ 0
  pub finds_task : (t : ℕ) (s : S) (task : Task) → b.get_task t s ≡ ok task → task.id ≡ t

module _ {S : Type 0} (b : Backend S) (rows : S → List Execution) (laws : Rows b rows) where
  give_up-rows : (t e : ℕ) (s : S) → rows (give_up b t e s) ≡ rows s
  unfolding give_up
  give_up-rows t e s =
      laws.perform_rows (notify t e failed) _ ∙ update_task_status_by_id-rows b rows laws t failed s

  given_up : (t e : ℕ) (s : S) → rows (give_up b t e (b.perform (del_retry_lock t) s)) ≡ rows s
  given_up t e s = give_up-rows t e _ ∙ laws.perform_rows (del_retry_lock t) s

  after_retry_times-rows :
      (t e n : ℕ) (s : S) (r : Reply ℕ) → rows (after_retry_times b t e n s r).0 ≡ rows s
  unfolding after_retry_times retry_or_give_up
  after_retry_times-rows t e n s err = given_up t e s
  after_retry_times-rows t e n s (ok m) =
      ground (arith, given_up t e s, laws.perform_rows (start_retry t e (m + 1)) s)

  after_retry_lock-rows :
      (t e n : ℕ) (r : S × Reply Bool) → rows (after_retry_lock b t e n r).0 ≡ rows r.0
  unfolding after_retry_lock
  after_retry_lock-rows t e n (s, ok false) = refl
  after_retry_lock-rows t e n (s, ok true) = after_retry_times-rows t e n s (b.get_retry_times e s)
  after_retry_lock-rows t e n (s, err) = after_retry_times-rows t e n s (b.get_retry_times e s)

  with_retries-rows : (t e n : ℕ) (s : S) → rows (with_retries b t e n s).0 ≡ rows s
  unfolding with_retries
  with_retries-rows t e zero s = give_up-rows t e s
  with_retries-rows t e (suc n) s =
      after_retry_lock-rows t e (suc n) (b.retry_lock_nx t s) ∙ laws.retry_lock_nx_rows t s

  with_task-rows : (t e : ℕ) (s : S) (r : Reply Task) → rows (with_task b t e s r).0 ≡ rows s
  unfolding with_task
  with_task-rows t e s err = give_up-rows t e s
  with_task-rows t e s (ok task) = with_retries-rows t e task.retry_count s

  pub handle_task_failure-rows : (t e : ℕ) (s : S) → rows (handle_task_failure b t e s).0 ≡ rows s
  unfolding handle_task_failure
  handle_task_failure-rows t e s = with_task-rows t e s (b.get_task t s)

  pub clean_stale-rows :
      (t e : ℕ) (s : S)
      → rows (clean_stale b t e s) ≡ (
          if (update_execution_result b e failed s).1 then set_status e failed (rows s) else rows s)
  unfolding clean_stale
  clean_stale-rows t e s =
      laws.perform_rows (del_keys e) _
      ∙ handle_task_failure-rows t e _
      ∙ laws.perform_rows (add_log e t) _
      ∙ update_execution_result-rows b rows laws e failed s
