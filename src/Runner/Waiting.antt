-- ===== src/Runner/Waiting.antt =====
-- What the shutdown of an executor waits for (executor/internal/executor/task_executor.go).
use bdopsflow.Prelude.{
  ℕ, suc, ◌+◌, ◌≡◌, refl, Bool, true, false, List, [], ◌∷◌, ◌++◌, map, ◌==◌, any, arith,
}
use bdopsflow.Prelude.Int.{pos, ◌+ℤ◌, ◌-ℤ◌}
use bdopsflow.Runner.{
  RunningTaskInfo, TaskExecutor, new_task_executor, is_running, enter, register, finish,
  cancel_task, update_task_progress, shutdown,
}

-- The goroutines that an executor has after any calls: those that have entered, and those that have
-- registered their task. A task that is refused has no goroutine.
pub data Reaches : (entered registered : ℕ) → TaskExecutor → Type 0 where
  starts : Reaches 0 0 new_task_executor
  enters :
      {n m : ℕ} {s : TaskExecutor}
      → Reaches n m s
      → s.shutting_down ≡ false
      → Reaches (suc n) m (enter s).0
  registers :
      {n m : ℕ} {s : TaskExecutor} (e t : ℕ)
      → Reaches (suc n) m s
      → Reaches n (suc m) (register e t s)
  finishes :
      {n m : ℕ} {s : TaskExecutor} (e : ℕ) (ok : Bool)
      → Reaches n (suc m) s
      → Reaches n m (finish e ok s)
  cancels : {n m : ℕ} {s : TaskExecutor} (e : ℕ) → Reaches n m s → Reaches n m (cancel_task e s).0
  progresses :
      {n m : ℕ} {s : TaskExecutor} (e p : ℕ)
      → Reaches n m s
      → Reaches n m (update_task_progress e p s)
  shuts_down : {n m : ℕ} {s : TaskExecutor} → Reaches n m s → Reaches n m (shutdown s)

-- Whatever happens, the group that a shutdown waits for counts just the goroutines that have entered or
-- registered, and the pool just those that have registered.
pub Reaches-counts :
    {n m : ℕ} {s : TaskExecutor} → Reaches n m s → (s.task_wg ≡ n + m) × (s.pool_running ≡ pos m)
unfolding new_task_executor enter register finish cancel_task update_task_progress shutdown ◌+ℤ◌
    ◌-ℤ◌
Reaches-counts starts = (refl, refl)
Reaches-counts (enters r h) =
    let c = Reaches-counts r in (ground (arith, c.0, h), ground (arith, c.1, h))
Reaches-counts (registers e t r) =
    let c = Reaches-counts r in (ground (arith, c.0), ground (arith, c.1))
Reaches-counts (finishes e ok r) =
    let c = Reaches-counts r in (ground (arith, c.0), ground (arith, c.1))
Reaches-counts (cancels e r) =
    let c = Reaches-counts r in (ground (arith, c.0), ground (arith, c.1))
Reaches-counts (progresses e p r) = Reaches-counts r
Reaches-counts (shuts_down r) =
    let c = Reaches-counts r in (ground (arith, c.0), ground (arith, c.1))

unfoldable pub has_id : ℕ → List ℕ → Bool
has_id e xs = any (λ x. x == e) xs

has_id-append : (e : ℕ) (xs ys : List ℕ) → has_id e ys ≡ true → has_id e (xs ++ ys) ≡ true
unfolding has_id
has_id-append e [] ys h = h
has_id-append e (x ∷ xs) ys h = ground (arith, has_id-append e xs ys h)

is_running-map :
    (e : ℕ) (xs : List RunningTaskInfo)
    → is_running e xs ≡ true
    → has_id e (map (λ x. x.execution_id) xs) ≡ true
unfolding has_id is_running
is_running-map e [] h = h
is_running-map e (x ∷ xs) h = ground (arith, is_running-map e xs)

-- The first shutdown cancels every task that is registered then.
pub shutdown-cancels :
    (e : ℕ) (s : TaskExecutor)
    → s.shutting_down ≡ false
    → is_running e s.running_tasks ≡ true
    → has_id e (shutdown s).cancelled ≡ true
unfolding shutdown
shutdown-cancels e s h r = ground (
  arith,
  has_id-append e s.cancelled (map (λ x. x.execution_id) s.running_tasks)
      (is_running-map e s.running_tasks r),
  h,
)

-- A task that has entered before a shutdown and registers after it runs on uncancelled: neither that
-- shutdown nor a later one cancels it, and the group waits for it.
pub shutdown-misses :
    (n m e t : ℕ) (s : TaskExecutor)
    → Reaches (suc n) m s
    → ((shutdown (register e t (shutdown s))).cancelled ≡ (shutdown s).cancelled)
      × (is_running e (register e t (shutdown s)).running_tasks ≡ true)
      × ((register e t (shutdown s)).task_wg ≡ suc (n + m))
unfolding shutdown register is_running
shutdown-misses n m e t s r =
    let c = Reaches-counts r in (ground arith, ground arith, ground (arith, c.0))
