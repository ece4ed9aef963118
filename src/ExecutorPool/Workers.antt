-- ===== src/ExecutorPool/Workers.antt =====
-- The workers over any sequence of actions: the counter of running tasks, the bound of the queue,
-- and what becomes of the workers that wait while the queue is replaced.
use bdopsflow.Prelude.{
  ℕ, zero, suc, ◌+◌, ◌-◌, ◌*◌, ◌≤◌, ◌≡◌, refl, ap, ◌∙◌, ◌≢◌, ◌==◌, false, List, [], ◌∷◌, arith,
  if◌then◌else◌, ltb, length, Bool-cases, inl, inr, Option, none, some, length-append, get_elem?,
  length-take,
}
use bdopsflow.Prelude.Int.{ℤ, pos, negsuc, ◌+ℤ◌, ◌-ℤ◌}
use bdopsflow.ExecutorPool.{
  Status, waiting, busy, exited, Worker, Pool, new_pool, start, start_worker, start_workers, submit,
  cancel_worker, cancel_all, stop, stop_workers, resize_workers, replace_queue, update_capacity,
  Event, takes, finishes, leaves, submits, resizes, stops, update_at, with_status, is_busy,
  take_task, finish_task, leave, step, run,
}
use bdopsflow.ExecutorPool.Resize.{update_capacity_changes, update_capacity-queue}

-- The goroutines that run a task.
abbrev pub busy_count : List Worker → ℕ
busy_count [] = 0
busy_count (w ∷ ws) = (if is_busy w.status then 1 else 0) + busy_count ws

busy_count-update_at :
    (i : ℕ) (s : Status) (ws : List Worker) (w : Worker)
    → get_elem? ws i ≡ some w
    → busy_count (update_at i (with_status s) ws) + (if is_busy w.status then 1 else 0)
      ≡ busy_count ws + (if is_busy s then 1 else 0)
unfolding update_at
busy_count-update_at i s [] w h = absurd (cc)
busy_count-update_at zero s (v ∷ ws) w h = ground arith
busy_count-update_at (suc i) s (v ∷ ws) w h = omega (arith, busy_count-update_at i s ws w h)

busy_count-cancel_worker :
    (id : ℕ) (ws : List Worker) → busy_count (cancel_worker id ws) ≡ busy_count ws
unfolding cancel_worker
busy_count-cancel_worker id [] = refl
busy_count-cancel_worker id (w ∷ ws) = ground (arith, busy_count-cancel_worker id ws)

busy_count-cancel_all : (ws : List Worker) → busy_count (cancel_all ws) ≡ busy_count ws
unfolding cancel_all
busy_count-cancel_all [] = refl
busy_count-cancel_all (w ∷ ws) = ground (arith, busy_count-cancel_all ws)

busy_count-stop_workers :
    (n i : ℕ) (ids : List ℕ) (ws : List Worker)
    → busy_count (stop_workers n i ids ws).1 ≡ busy_count ws
unfolding stop_workers
busy_count-stop_workers zero i ids ws = refl
busy_count-stop_workers (suc n) i [] ws = refl
busy_count-stop_workers (suc n) i (id ∷ ids) ws = ground (
  arith,
  busy_count-stop_workers n (i + 1) ids (cancel_worker id ws),
  busy_count-cancel_worker id ws,
)

-- `running` counts the busy workers, and the queue holds at most twice the capacity.
pub record IsSound {T : Type 0} (p : Pool T) : Type 0 where
  pub counts : p.running ≡ pos (busy_count p.goroutines)
  pub sized : p.queue_size ≡ p.capacity * 2
  pub bounded : length p.queue ≤ p.queue_size

up : (a : ℕ) → pos a +ℤ pos 1 ≡ pos (a + 1)
unfolding ◌+ℤ◌
up a = ground arith

down : (a : ℕ) → pos (a + 1) -ℤ pos 1 ≡ pos a
unfolding ◌-ℤ◌
down a = ground arith

module _ {T : Type 0} where
  take_task-IsSound :
      (ow : Option Worker) (i : ℕ) (q : List T) (p : Pool T)
      → get_elem? p.goroutines i ≡ ow
      → p.queue ≡ q
      → IsSound p
      → IsSound (take_task ow i q p)
  unfolding take_task
  take_task-IsSound none i q p e k v = v
  take_task-IsSound (some w) i [] p e k v = v
  take_task-IsSound (some w) i (t ∷ rest) p e k v =
      ground (arith, busy_count-update_at i busy p.goroutines w e, up (busy_count p.goroutines))

  finish_task-IsSound :
      (ow : Option Worker) (i : ℕ) (p : Pool T)
      → get_elem? p.goroutines i ≡ ow
      → IsSound p
      → IsSound (finish_task ow i p)
  unfolding finish_task
  finish_task-IsSound none i p e v = v
  finish_task-IsSound (some w) i p e v =
      let ws : List Worker = update_at i (with_status (waiting p.generation)) p.goroutines in
      ground (
        arith,
        busy_count-update_at i (waiting p.generation) p.goroutines w e,
        down (busy_count ws),
      )

  leave-IsSound :
      (ow : Option Worker) (i : ℕ) (p : Pool T)
      → get_elem? p.goroutines i ≡ ow
      → IsSound p
      → IsSound (leave ow i p)
  unfolding leave
  leave-IsSound none i p e v = v
  leave-IsSound (some w) i p e v = ground (arith, busy_count-update_at i exited p.goroutines w e)

  start_workers-busy :
      (n g : ℕ) (p : Pool T)
      → (busy_count (start_workers n g p).goroutines ≡ busy_count p.goroutines)
        × ((start_workers n g p).running ≡ p.running)
        × ((start_workers n g p).queue ≡ p.queue)
  unfolding start_workers start_worker
  start_workers-busy zero g p = (refl, refl, refl)
  start_workers-busy (suc n) g p =
      let (b, r, q) = start_workers-busy n g (start_worker g p) in (b ∙ omega arith, r, q)

  resize_workers-busy :
      (new : ℕ) (p : Pool T)
      → (busy_count (resize_workers new p).goroutines ≡ busy_count p.goroutines)
        × ((resize_workers new p).running ≡ p.running)
        × ((resize_workers new p).queue ≡ p.queue)
  unfolding resize_workers
  resize_workers-busy new p = elim (Bool-cases (ltb p.capacity new)) [
    | inl grows ↦ rw grows (start_workers-busy (new - p.capacity) (suc p.generation) p)
    | inr shrinks ↦
        rw shrinks (busy_count-stop_workers (p.capacity - new) 0 p.workers p.goroutines, refl, refl)
  ]

  -- The change to a new capacity keeps the counter and the bound.
  changed-IsSound :
      (n : ℕ) (p : Pool T)
      → suc n ≢ p.capacity
      → p.is_closed ≡ false
      → IsSound p
      → IsSound (update_capacity (pos (suc n)) p).0
  changed-IsSound n p h o v =
      let (b, r, q) = resize_workers-busy (suc n) p in
      let moved = update_capacity-queue n p h o in
      let e = update_capacity_changes n p h o in
      record {
        counts = rw e (unfold replace_queue in rw (r, b) v.counts);
        sized = rw e (unfold replace_queue in refl);
        bounded =
            rw moved
              (rw e (unfold replace_queue in omega (arith, length-take (suc n * 2) p.queue)));
      }

  update_capacity-IsSound : (c : ℤ) (p : Pool T) → IsSound p → IsSound (update_capacity c p).0
  unfolding update_capacity
  update_capacity-IsSound (negsuc n) p v = v
  update_capacity-IsSound (pos zero) p v = v
  update_capacity-IsSound (pos (suc n)) p v = elim (Bool-cases (suc n == p.capacity)) [
    | inl same ↦ simp same v
    | inr other ↦ elim (Bool-cases p.is_closed) [
      | inl shut ↦ simp (other, shut) v
      | inr live ↦ changed-IsSound n p (ground arith) live v
    ]
  ]

  pub step-IsSound : (e : Event T) (p : Pool T) → IsSound p → IsSound (step e p)
  unfolding step
  step-IsSound (takes i) p v = take_task-IsSound (get_elem? p.goroutines i) i p.queue p refl refl v
  step-IsSound (finishes i) p v = finish_task-IsSound (get_elem? p.goroutines i) i p refl v
  step-IsSound (leaves i) p v = leave-IsSound (get_elem? p.goroutines i) i p refl v
  step-IsSound (submits t) p v = unfold submit in ground (arith, length-append p.queue (t ∷ []))
  step-IsSound (resizes c) p v = update_capacity-IsSound c p v
  step-IsSound stops p v = unfold stop in ground (arith, busy_count-cancel_all p.goroutines)

  run-IsSound : (es : List (Event T)) (p : Pool T) → IsSound p → IsSound (run es p)
  unfolding run
  run-IsSound [] p v = v
  run-IsSound (e ∷ es) p v = run-IsSound es (step e p) (step-IsSound e p v)

  start_workers-IsSound : (n g : ℕ) (p : Pool T) → IsSound p → IsSound (start_workers n g p)
  unfolding start_workers start_worker
  start_workers-IsSound zero g p v = v
  start_workers-IsSound (suc n) g p v =
      start_workers-IsSound n g (start_worker g p)
        (record { counts = v.counts ∙ ap pos (omega arith); sized = v.sized; bounded = v.bounded })

  start-IsSound : (capacity : ℕ) → IsSound {T = T} (start (new_pool capacity))
  unfolding start new_pool
  start-IsSound capacity =
      start_workers-IsSound capacity 0 (new_pool capacity)
        (record { counts = refl; sized = refl; bounded = omega arith })

  -- From a new, started pool, through any calls of `Submit`, `UpdateCapacity` and `Stop` and any
  -- order of the workers' actions: `running` is the number of workers that run a task, the queue has
  -- room for twice the capacity, and it never holds more.
  pub run-start-IsSound :
      (capacity : ℕ) (es : List (Event T)) → IsSound (run es (start (new_pool capacity)))
  run-start-IsSound capacity es =
      run-IsSound es (start (new_pool capacity)) (start-IsSound capacity)
