-- ===== src/ExecutorPool.antt =====
-- executor/internal/pool/pool.go: the workers of an executor and their task queue. The goroutines of
-- `startWorker` are part of the state, and one event of `step` is one atomic action: a method under
-- `p.mu`, or one pass of a worker through its `select`. A queue is known by its generation, the
-- number of times that `UpdateCapacity` has replaced `p.taskCh`; the old queue is closed and empty
-- once it has been replaced. Capacities are small enough for `newCapacity*2` not to wrap.
pub mod Resize
pub mod Workers
pub mod Stale
pub mod Stranded
use bdopsflow.Prelude.{
  ℕ, zero, suc, ◌+◌, ◌-◌, ◌*◌, Bool, true, false, ◌||◌, ◌&&◌, not, get_elem?, List, [], ◌∷◌, ◌++◌,
  if◌then◌else◌, ltb, leb, ◌==◌, length, Option, none, some,
}
use bdopsflow.Prelude.Int.{ℤ, pos, negsuc, ◌+ℤ◌, ◌-ℤ◌}

-- What a goroutine is at: blocked on the queue of a generation, running a task, or returned.
pub data Status : Type 0 where
  waiting : ℕ → Status
  busy : Status
  exited : Status

pub record Worker : Type 0 where
  pub id : ℕ
  pub status : Status
  pub cancelled : Bool

-- `workers` are the ids of the cancel functions in `p.workers` and `goroutines` all that were
-- started, both newest first.
pub record Pool (T : Type 0) : Type 0 where
  pub capacity : ℕ
  pub running : ℤ
  pub workers : List ℕ
  pub goroutines : List Worker
  pub next_id : ℕ
  pub generation : ℕ
  pub queue : List T
  pub queue_size : ℕ
  pub is_closed : Bool

pub data Error : Type 0 where
  queue_full bad_capacity send_on_closed close_of_closed : Error

pub cancel_worker : ℕ → List Worker → List Worker
cancel_worker id [] = []
cancel_worker id (w ∷ ws) =
    (if w.id == id then record w { cancelled = true } else w) ∷ cancel_worker id ws

pub cancel_all : List Worker → List Worker
cancel_all [] = []
cancel_all (w ∷ ws) = record w { cancelled = true } ∷ cancel_all ws

-- `for i := 0; i < workersToStop && i < len(p.workers); i++` with `n` rounds left: the newest
-- worker is cancelled and leaves the list, so `len(p.workers)` falls while `i` grows.
pub stop_workers : ℕ → ℕ → List ℕ → List Worker → List ℕ × List Worker
stop_workers zero i ids ws = (ids, ws)
stop_workers (suc n) i [] ws = ([], ws)
stop_workers (suc n) i (id ∷ ids) ws =
    let rest = stop_workers n (i + 1) ids (cancel_worker id ws) in
    if ltb i (length (id ∷ ids)) then rest else (id ∷ ids, ws)

module _ {T : Type 0} where
  unfoldable pub new_pool : ℕ → Pool T
  new_pool capacity = record {
    capacity = capacity;
    running = pos 0;
    workers = [];
    goroutines = [];
    next_id = 0;
    generation = 0;
    queue = [];
    queue_size = capacity * 2;
    is_closed = false;
  }

  -- The goroutine reads `p.taskCh` when it can take `p.mu`, so after the method that starts it: it
  -- is put at `generation`, which `UpdateCapacity` has moved on by then.
  unfoldable pub start_worker : ℕ → Pool T → Pool T
  start_worker generation p = record p {
    workers = p.next_id ∷ p.workers;
    goroutines =
        record { id = p.next_id; status = waiting generation; cancelled = false } ∷ p.goroutines;
    next_id = suc p.next_id;
  }

  -- `for i := a; i < b; i++ { p.startWorker() }` with b - a rounds.
  pub start_workers : ℕ → ℕ → Pool T → Pool T
  start_workers zero generation p = p
  start_workers (suc n) generation p = start_workers n generation (start_worker generation p)

  unfoldable pub start : Pool T → Pool T
  start p = start_workers p.capacity p.generation p

  -- A send that does not block: a full queue refuses, a closed one panics.
  unfoldable pub submit : T → Pool T → Pool T × Option Error
  submit task p =
      if p.is_closed
      then (p, some send_on_closed)
      else if ltb (length p.queue) p.queue_size
      then (record p { queue = p.queue ++ task ∷ [] }, none)
      else (p, some queue_full)

  unfoldable pub inc_running : Pool T → Pool T
  inc_running p = record p { running = p.running +ℤ pos 1 }

  unfoldable pub dec_running : Pool T → Pool T
  dec_running p = record p { running = p.running -ℤ pos 1 }

  -- The worker contexts are children of `p.ctx`; closing a closed queue panics. The wait for the
  -- goroutines is no change.
  unfoldable pub stop : Pool T → Pool T × Option Error
  unfolding cancel_all
  stop p =
      if p.is_closed
      then (p, some close_of_closed)
      else (record p { goroutines = cancel_all p.goroutines; is_closed = true }, none)

  -- The tasks of the old queue go to the new one until it is full; what is left is dropped.
  pub move_tasks : ℕ → List T → List T → List T
  move_tasks size moved [] = moved
  move_tasks size moved (t ∷ ts) =
      move_tasks size (if ltb (length moved) size then moved ++ t ∷ [] else moved) ts

  pub shrink : ℕ → Pool T → Pool T
  unfolding stop_workers
  shrink n p =
      let (ids, ws) = stop_workers n 0 p.workers p.goroutines in
      record p { workers = ids; goroutines = ws }

  pub resize_workers : ℕ → Pool T → Pool T
  unfolding shrink
  resize_workers new p =
      if ltb p.capacity new
      then start_workers (new - p.capacity) (suc p.generation) p
      else shrink (p.capacity - new) p

  -- The queue that was, `old`, goes over to a new one.
  pub replace_queue : ℕ → Pool T → Pool T
  replace_queue new p = record p {
    capacity = new;
    generation = suc p.generation;
    queue = move_tasks (new * 2) [] p.queue;
    queue_size = new * 2;
  }

  -- Closing a closed queue panics, and nothing recovers from it in the executor: the process ends, and
  -- the state that it leaves is of no account.
  unfoldable pub update_capacity : ℤ → Pool T → Pool T × Option Error
  unfolding replace_queue
  update_capacity (negsuc n) p = (p, some bad_capacity)
  update_capacity (pos zero) p = (p, some bad_capacity)
  update_capacity (pos (suc n)) p =
      if suc n == p.capacity
      then (p, none)
      else if p.is_closed
      then (p, some close_of_closed)
      else (replace_queue (suc n) (resize_workers (suc n) p), none)

-- One action: a worker takes a task, ends its task, or returns; a call of a method. The workers are
-- named by their place in `goroutines`.
pub data Event (T : Type 0) : Type 0 where
  takes finishes leaves : ℕ → Event T
  submits : T → Event T
  resizes : ℤ → Event T
  stops : Event T

pub update_at : ℕ → (Worker → Worker) → List Worker → List Worker
update_at i f [] = []
update_at zero f (w ∷ ws) = f w ∷ ws
update_at (suc i) f (w ∷ ws) = w ∷ update_at i f ws

abbrev pub with_status : Status → Worker → Worker
with_status s w = record w { status = s }

-- A task can be received from the current queue by a worker that waits on it.
abbrev pub can_take : ℕ → Status → Bool
can_take generation (waiting g) = g == generation
can_take generation busy = false
can_take generation exited = false

abbrev pub is_busy : Status → Bool
is_busy busy = true
is_busy (waiting g) = false
is_busy exited = false

-- A worker returns when the queue that it waits on is closed and empty, or its context cancelled.
abbrev pub can_leave : ℕ → Bool → Status → Bool → Bool
can_leave generation drained (waiting g) cancelled = cancelled || not (g == generation) || drained
can_leave generation drained busy cancelled = false
can_leave generation drained exited cancelled = false

abbrev pub is_empty {ℓ} : {A : Type ℓ} → List A → Bool
is_empty [] = true
is_empty (x ∷ xs) = false

module _ {T : Type 0} where
  take_task : Option Worker → ℕ → List T → Pool T → Pool T
  take_task (some w) i (t ∷ rest) p =
      if can_take p.generation w.status
      then record p {
        queue = rest;
        running = p.running +ℤ pos 1;
        goroutines = update_at i (with_status busy) p.goroutines;
      }
      else p
  take_task (some w) i [] p = p
  take_task none i q p = p

  finish_task : Option Worker → ℕ → Pool T → Pool T
  finish_task (some w) i p =
      if is_busy w.status
      then record p {
        running = p.running -ℤ pos 1;
        goroutines = update_at i (with_status (waiting p.generation)) p.goroutines;
      }
      else p
  finish_task none i p = p

  leave : Option Worker → ℕ → Pool T → Pool T
  leave (some w) i p =
      if can_leave p.generation (p.is_closed && is_empty p.queue) w.status w.cancelled
      then record p { goroutines = update_at i (with_status exited) p.goroutines }
      else p
  leave none i p = p

  pub step : Event T → Pool T → Pool T
  step (takes i) p = take_task (get_elem? p.goroutines i) i p.queue p
  step (finishes i) p = finish_task (get_elem? p.goroutines i) i p
  step (leaves i) p = leave (get_elem? p.goroutines i) i p
  step (submits t) p = (submit t p).0
  step (resizes c) p = (update_capacity c p).0
  step stops p = (stop p).0

  pub run : List (Event T) → Pool T → Pool T
  run [] p = p
  run (e ∷ es) p = run es (step e p)
