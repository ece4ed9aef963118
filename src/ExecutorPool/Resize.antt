-- ===== src/ExecutorPool/Resize.antt =====
-- `UpdateCapacity`: how many workers are left, which tasks, and what is refused.
use bdopsflow.Prelude.{
  ℕ, zero, suc, ◌+◌, ◌-◌, ◌*◌, ◌/◌, ◌≤◌, ◌<◌, min, ◌≡◌, refl, ap, ◌∙◌, ◌≢◌, sym, ◌==◌, ◌⊎◌, true,
  false, List, [], ◌∷◌, ◌++◌, arith, if◌then◌else◌, ltb, length, take, Bool-cases, inl, inr, none,
  length-append, ltb→lt,
}
use mathlib.Core.List.{append-nil, append_assoc}
use bdopsflow.Prelude.Int.{ℤ, pos, negsuc, ◌≤ℤ◌}
use bdopsflow.ExecutorPool.{
  Pool, Worker, start_worker, start_workers, stop_workers, move_tasks, resize_workers,
  replace_queue, update_capacity, cancel_worker,
}

-- The loop stops at most half of the workers, rounded up: `i` meets the falling length.
length-stop_workers :
    (n i total : ℕ) (ids : List ℕ) (ws : List Worker)
    → i + length ids ≡ total
    → i ≤ (total + 1) / 2
    → length (stop_workers n i ids ws).0 ≡ total - min (i + n) ((total + 1) / 2)
unfolding stop_workers
length-stop_workers zero i total ids ws e h = omega arith
length-stop_workers (suc n) i total [] ws e h = omega arith
length-stop_workers (suc n) i total (id ∷ ids) ws e h =
    elim (Bool-cases (ltb i (length (id ∷ ids)))) [
      | inl more ↦ rw more (
          length-stop_workers n (i + 1) total ids (cancel_worker id ws) (omega arith) (ground arith)
          ∙ omega arith)
      | inr done ↦ rw done (ground arith)
    ]

module _ {T : Type 0} where
  length-start_workers :
      (n g : ℕ) (p : Pool T) → length (start_workers n g p).workers ≡ length p.workers + n
  unfolding start_workers
  length-start_workers zero g p = omega arith
  length-start_workers (suc n) g p =
      length-start_workers n g (start_worker g p) ∙ unfold start_worker in omega arith

  length-start_workers-capacity :
      (n g : ℕ) (p : Pool T) → (start_workers n g p).capacity ≡ p.capacity
  unfolding start_workers
  length-start_workers-capacity zero g p = refl
  length-start_workers-capacity (suc n) g p =
      length-start_workers-capacity n g (start_worker g p) ∙ unfold start_worker in refl

  start_workers-queue : (n g : ℕ) (p : Pool T) → (start_workers n g p).queue ≡ p.queue
  unfolding start_workers
  start_workers-queue zero g p = refl
  start_workers-queue (suc n) g p =
      start_workers-queue n g (start_worker g p) ∙ unfold start_worker in refl

  resize_workers-queue : (new : ℕ) (p : Pool T) → (resize_workers new p).queue ≡ p.queue
  unfolding resize_workers
  resize_workers-queue new p =
      ground (arith, start_workers-queue (new - p.capacity) (suc p.generation) p)

  move_tasks-full :
      (size : ℕ) (moved ts : List T) → size ≤ length moved → move_tasks size moved ts ≡ moved
  unfolding move_tasks
  move_tasks-full size moved [] h = refl
  move_tasks-full size moved (t ∷ ts) h = elim (Bool-cases (ltb (length moved) size)) [
    | inl room ↦ absurd (omega (arith, ltb→lt (length moved) size room))
    | inr full ↦ rw full (move_tasks-full size moved ts h)
  ]

  take-zero : (n : ℕ) (ts : List T) → n ≡ 0 → take n ts ≡ []
  take-zero zero ts h = refl
  take-zero (suc n) ts h = absurd (omega arith)

  take-nil : (n : ℕ) → take {A = T} n [] ≡ []
  take-nil zero = refl
  take-nil (suc n) = refl

  take-cons : (m n : ℕ) (t : T) (ts : List T) → n ≡ suc m → t ∷ take m ts ≡ take n (t ∷ ts)
  take-cons m n t ts e = rw e

  -- The loop fills the new queue in order.
  move_tasks-take :
      (size : ℕ) (moved ts : List T)
      → length moved ≤ size
      → move_tasks size moved ts ≡ moved ++ take (size - length moved) ts
  unfolding move_tasks
  move_tasks-take size moved [] h =
      sym (ap (◌++◌ moved) (take-nil (size - length moved)) ∙ append-nil moved)
  move_tasks-take size moved (t ∷ ts) h = elim (Bool-cases (ltb (length moved) size)) [
    | inl room ↦ rw room (
        move_tasks-take size (moved ++ t ∷ []) ts
          (omega (arith, length-append moved (t ∷ []), ltb→lt (length moved) size room))
        ∙ append_assoc moved (t ∷ []) _
        ∙ ap (◌++◌ moved) (
            take-cons _ _ t ts
              (omega (arith, length-append moved (t ∷ []), ltb→lt (length moved) size room))))
    | inr full ↦ rw full (
        move_tasks-full size moved ts (ground arith)
        ∙ sym (ap (◌++◌ moved) (take-zero _ (t ∷ ts) (ground arith)) ∙ append-nil moved))
  ]

  -- The branch that changes the pool.
  pub update_capacity_changes :
      (n : ℕ) (p : Pool T)
      → suc n ≢ p.capacity
      → p.is_closed ≡ false
      → update_capacity (pos (suc n)) p ≡ (replace_queue (suc n) (resize_workers (suc n) p), none)
  unfolding update_capacity
  update_capacity_changes n p h o = ground arith

  -- `UpdateCapacity` to another positive capacity moves the waiting tasks to the new queue in
  -- their order, the first 2 * new of them; the rest is dropped.
  pub update_capacity-queue :
      (n : ℕ) (p : Pool T)
      → suc n ≢ p.capacity
      → p.is_closed ≡ false
      → (update_capacity (pos (suc n)) p).0.queue ≡ take (suc n * 2) p.queue
  update_capacity-queue n p h o = rw (update_capacity_changes n p h o) (
      unfold replace_queue in
      (move_tasks-take (suc n * 2) [] (resize_workers (suc n) p).queue (omega arith)
        ∙ ap (λ k. take k (resize_workers (suc n) p).queue) (omega arith)
        ∙ ap (take (suc n * 2)) (resize_workers-queue (suc n) p)))

  -- The number of cancel functions that `UpdateCapacity` to another positive capacity leaves: as
  -- many as it should when it grows; when it shrinks, the loop stops half of them at most.
  pub update_capacity-workers :
      (n : ℕ) (p : Pool T)
      → suc n ≢ p.capacity
      → p.is_closed ≡ false
      → length p.workers ≡ p.capacity
      → length (update_capacity (pos (suc n)) p).0.workers ≡ (
          if ltb p.capacity (suc n)
          then suc n
          else p.capacity - min (p.capacity - suc n) ((p.capacity + 1) / 2))
  unfolding resize_workers
  update_capacity-workers n p h o started = rw (update_capacity_changes n p h o) (
      unfold replace_queue in
      (elim (Bool-cases (ltb p.capacity (suc n))) [
        | inl grows ↦ rw grows (
            length-start_workers (suc n - p.capacity) (suc p.generation) p
            ∙ omega (arith, ltb→lt p.capacity (suc n) grows))
        | inr shrinks ↦ rw shrinks (
            length-stop_workers (p.capacity - suc n) 0 p.capacity p.workers p.goroutines
              (omega arith) (omega arith)
            ∙ omega arith)
      ]))

  -- A pool of `c` started workers that is shrunk below half of them keeps too many: more cancel
  -- functions are left than the new capacity.
  pub update_capacity-keeps_too_many :
      (n : ℕ) (p : Pool T)
      → p.is_closed ≡ false
      → length p.workers ≡ p.capacity
      → suc n < p.capacity / 2
      → suc n < length (update_capacity (pos (suc n)) p).0.workers
  update_capacity-keeps_too_many n p o started h =
      let e = update_capacity-workers n p (omega arith) o started in ground (arith, e)

  -- A capacity that is not positive is refused, the same capacity accepted, both with no change.
  pub update_capacity-same :
      (c : ℤ) (p : Pool T) → (c ≤ℤ pos 0) ⊎ (c ≡ pos p.capacity) → (update_capacity c p).0 ≡ p
  unfolding update_capacity
  update_capacity-same (negsuc n) p h = refl
  update_capacity-same (pos zero) p h = refl
  update_capacity-same (pos (suc n)) p (inl h) = absurd (omega arith)
  update_capacity-same (pos (suc n)) p (inr h) =
      let same : (suc n == p.capacity) ≡ true = ground arith in rw same
