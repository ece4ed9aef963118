-- ===== src/Tests/Workers.antt =====
-- The worker pool's theorems at small pools.
use bdopsflow.Prelude.{ℕ, ◌<◌, ◌≡◌, refl, [], ◌∷◌, arith, length, false}
use bdopsflow.Prelude.Int.{pos}
use bdopsflow.ExecutorPool.{
  Pool, waiting, takes, finishes, submits, resizes, new_pool, start, update_capacity, run,
}
use bdopsflow.ExecutorPool.Resize.{update_capacity-keeps_too_many}
use bdopsflow.ExecutorPool.Workers.{IsSound, run-start-IsSound}
use bdopsflow.ExecutorPool.Stale.{busy_below}
use bdopsflow.ExecutorPool.Stranded.{update_capacity-strands}

-- Ten workers' cancel functions, three tasks waiting.
abbrev ten : Pool ℕ
ten = record {
  capacity = 10;
  running = pos 0;
  workers = 9 ∷ 8 ∷ 7 ∷ 6 ∷ 5 ∷ 4 ∷ 3 ∷ 2 ∷ 1 ∷ 0 ∷ [];
  goroutines = [];
  next_id = 10;
  generation = 0;
  queue = 70 ∷ 71 ∷ 72 ∷ [];
  queue_size = 20;
  is_closed = false;
}

update_capacity-keeps_too_many_example : 2 < length (update_capacity (pos 2) ten).0.workers
update_capacity-keeps_too_many_example =
    update_capacity-keeps_too_many 1 ten refl refl (omega arith)

run-start-IsSound_example :
    IsSound {T = ℕ}
      (run (submits 5 ∷ takes 0 ∷ resizes (pos 3) ∷ finishes 0 ∷ []) (start (new_pool 2)))
run-start-IsSound_example =
    run-start-IsSound 2 (submits 5 ∷ takes 0 ∷ resizes (pos 3) ∷ finishes 0 ∷ [])

-- One worker, idle.
abbrev idle : Pool ℕ
idle = record {
  capacity = 1;
  running = pos 0;
  workers = 0 ∷ [];
  goroutines = record { id = 0; status = waiting 0; cancelled = false } ∷ [];
  next_id = 1;
  generation = 0;
  queue = [];
  queue_size = 2;
  is_closed = false;
}

update_capacity-strands_example :
    busy_below 1
      (run (submits 5 ∷ takes 1 ∷ takes 0 ∷ []) (update_capacity (pos 2) idle).0).goroutines
    ≡ 0
update_capacity-strands_example =
    update_capacity-strands 1 idle (submits 5 ∷ takes 1 ∷ takes 0 ∷ []) (omega arith) refl
      (refl, tt)
