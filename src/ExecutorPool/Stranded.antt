-- ===== src/ExecutorPool/Stranded.antt =====
-- The workers that wait on a queue when `UpdateCapacity` replaces it never run a task again.
use bdopsflow.Prelude.{
  ℕ, zero, suc, ◌-◌, ◌≤◌, ◌≡◌, refl, ◌≢◌, ◌==◌, true, false, ◌&&◌, List, [], ◌∷◌, arith, ltb,
  Bool-cases, inl, inr, Option, none, some, get_elem?,
}
use bdopsflow.Prelude.Int.{ℤ, pos, negsuc}
use bdopsflow.ExecutorPool.{
  waiting, busy, exited, Worker, Pool, start_worker, start_workers, submit, stop, resize_workers,
  replace_queue, update_capacity, Event, takes, finishes, leaves, submits, resizes, stops, can_take,
  is_busy, can_leave, is_empty, take_task, finish_task, leave, step, run,
}
use bdopsflow.ExecutorPool.Resize.{update_capacity_changes}
use bdopsflow.ExecutorPool.Stale.{
  is_old, AllOld, busy_below, AllOld-busy_below, AllOld-later, update_at-AllOld, cancel_all-AllOld,
  stop_workers-AllOld, can_take-new, is_busy-new,
}

-- The workers below `n` are old, and new ids are not below `n`.
pub record IsStranded {T : Type 0} (n : ℕ) (p : Pool T) : Type 0 where
  pub all_old : AllOld n p.generation p.goroutines
  pub issued : n ≤ p.next_id

module _ {T : Type 0} (n : ℕ) where
  -- Workers that are started get ids from `next_id` on.
  start_workers-AllOld :
      (k g now : ℕ) (p : Pool T)
      → n ≤ p.next_id
      → AllOld n now p.goroutines
      → AllOld n now (start_workers k g p).goroutines
        × (n ≤ (start_workers k g p).next_id)
        × ((start_workers k g p).generation ≡ p.generation)
  unfolding start_workers start_worker
  start_workers-AllOld zero g now p le h = (h, le, refl)
  start_workers-AllOld (suc k) g now p le h =
      start_workers-AllOld k g now (start_worker g p) (omega arith) (ground arith, h)

  resize_workers-AllOld :
      (new now : ℕ) (p : Pool T)
      → n ≤ p.next_id
      → AllOld n now p.goroutines
      → AllOld n now (resize_workers new p).goroutines
        × (n ≤ (resize_workers new p).next_id)
        × ((resize_workers new p).generation ≡ p.generation)
  unfolding resize_workers
  resize_workers-AllOld new now p le h = elim (Bool-cases (ltb p.capacity new)) [
    | inl grows ↦ rw grows (start_workers-AllOld (new - p.capacity) (suc p.generation) now p le h)
    | inr shrinks ↦
        rw shrinks
          (stop_workers-AllOld n now (p.capacity - new) 0 p.workers p.goroutines h, le, refl)
  ]

  replace_queue-IsStranded :
      (new : ℕ) (p : Pool T)
      → n ≤ p.next_id
      → AllOld n (suc p.generation) p.goroutines
      → IsStranded n (replace_queue new (resize_workers new p))
  unfolding replace_queue
  replace_queue-IsStranded new p le h =
      let (old, le', same) = resize_workers-AllOld new (suc p.generation) p le h in
      record { all_old = rw same old; issued = le' }

  update_capacity-IsStranded :
      (c : ℤ) (p : Pool T) → IsStranded n p → IsStranded n (update_capacity c p).0
  unfolding update_capacity
  update_capacity-IsStranded (negsuc k) p v = v
  update_capacity-IsStranded (pos zero) p v = v
  update_capacity-IsStranded (pos (suc k)) p v = elim (Bool-cases (suc k == p.capacity)) [
    | inl same ↦ simp same v
    | inr other ↦ elim (Bool-cases p.is_closed) [
      | inl shut ↦ simp (other, shut) v
      | inr live ↦
          simp (other, live)
            (replace_queue-IsStranded (suc k) p v.issued
              (AllOld-later n p.generation p.goroutines v.all_old))
    ]
  ]

  take_task-IsStranded :
      (ow : Option Worker) (i : ℕ) (q : List T) (p : Pool T)
      → get_elem? p.goroutines i ≡ ow
      → IsStranded n p
      → IsStranded n (take_task ow i q p)
  unfolding take_task
  take_task-IsStranded none i q p e v = v
  take_task-IsStranded (some w) i [] p e v = v
  take_task-IsStranded (some w) i (t ∷ rest) p e v =
      elim (Bool-cases (can_take p.generation w.status)) [
        | inl can ↦ simp can (record {
          all_old =
              update_at-AllOld n p.generation i busy p.goroutines w e
                (inr (can_take-new p.generation w.status can)) v.all_old;
          issued = v.issued;
        })
        | inr cannot ↦ simp cannot v
      ]

  finish_task-IsStranded :
      (ow : Option Worker) (i : ℕ) (p : Pool T)
      → get_elem? p.goroutines i ≡ ow
      → IsStranded n p
      → IsStranded n (finish_task ow i p)
  unfolding finish_task
  finish_task-IsStranded none i p e v = v
  finish_task-IsStranded (some w) i p e v = elim (Bool-cases (is_busy w.status)) [
    | inl can ↦ simp can (record {
      all_old =
          update_at-AllOld n p.generation i (waiting p.generation) p.goroutines w e
            (inr (is_busy-new p.generation w.status can)) v.all_old;
      issued = v.issued;
    })
    | inr cannot ↦ simp cannot v
  ]

  leave-IsStranded :
      (ow : Option Worker) (i : ℕ) (p : Pool T)
      → get_elem? p.goroutines i ≡ ow
      → IsStranded n p
      → IsStranded n (leave ow i p)
  unfolding leave
  leave-IsStranded none i p e v = v
  leave-IsStranded (some w) i p e v =
      elim (Bool-cases
        (can_leave p.generation (p.is_closed && is_empty p.queue) w.status w.cancelled)) [
          | inl can ↦ simp can (record {
            all_old =
                update_at-AllOld n p.generation i exited p.goroutines w e (inl refl) v.all_old;
            issued = v.issued;
          })
          | inr cannot ↦ simp cannot v
        ]

  step-IsStranded : (e : Event T) (p : Pool T) → IsStranded n p → IsStranded n (step e p)
  unfolding step
  step-IsStranded (takes i) p v = take_task-IsStranded (get_elem? p.goroutines i) i p.queue p refl v
  step-IsStranded (finishes i) p v = finish_task-IsStranded (get_elem? p.goroutines i) i p refl v
  step-IsStranded (leaves i) p v = leave-IsStranded (get_elem? p.goroutines i) i p refl v
  step-IsStranded (submits t) p v = unfold submit in ground arith
  step-IsStranded (resizes c) p v = update_capacity-IsStranded c p v
  step-IsStranded stops p v =
      unfold stop in ground (arith, cancel_all-AllOld n p.generation p.goroutines v.all_old)

  run-IsStranded : (es : List (Event T)) (p : Pool T) → IsStranded n p → IsStranded n (run es p)
  unfolding run
  run-IsStranded [] p v = v
  run-IsStranded (e ∷ es) p v = run-IsStranded es (step e p) (step-IsStranded e p v)

-- No worker runs a task, and none waits on a queue that is still to come.
abbrev pub AllIdle : ℕ → List Worker → Type 0
AllIdle now [] = Unit {0}
AllIdle now (w ∷ ws) = (is_old (suc now) w.status ≡ true) × AllIdle now ws

AllIdle-AllOld : (n now : ℕ) (ws : List Worker) → AllIdle now ws → AllOld n (suc now) ws
AllIdle-AllOld n now [] h = tt
AllIdle-AllOld n now (w ∷ ws) (h, hs) = (ground arith, AllIdle-AllOld n now ws hs)

-- When the capacity of a pool whose workers are all idle is changed, none of these workers ever runs
-- a task again, whatever happens after it: they wait on the closed queue, and can only return.
pub update_capacity-strands :
    {T : Type 0} (n : ℕ) (p : Pool T) (es : List (Event T))
    → suc n ≢ p.capacity
    → p.is_closed ≡ false
    → AllIdle p.generation p.goroutines
    → busy_below p.next_id (run es (update_capacity (pos (suc n)) p).0).goroutines ≡ 0
update_capacity-strands n p es h o idle =
    let v = run-IsStranded p.next_id es (replace_queue (suc n) (resize_workers (suc n) p)) (
      replace_queue-IsStranded p.next_id (suc n) p (omega arith)
        (AllIdle-AllOld p.next_id p.generation p.goroutines idle)) in
    rw (update_capacity_changes n p h o) (AllOld-busy_below p.next_id _ _ v.all_old)
