-- ===== src/ExecutorPool/Stale.antt =====
-- Workers that came before a replacement of the queue (executor/internal/pool/pool.go).
use bdopsflow.Prelude.{
  ℕ, zero, suc, ◌+◌, ◌≡◌, refl, ◌⊎◌, Bool, true, false, ◌||◌, ◌&&◌, List, [], ◌∷◌, arith,
  if◌then◌else◌, ltb, leb, length, Bool-cases, inl, inr, some, get_elem?,
}
use bdopsflow.ExecutorPool.{
  Status, waiting, busy, exited, Worker, cancel_worker, cancel_all, stop_workers, update_at,
  with_status, can_take, is_busy,
}

-- Neither running nor waiting on the queue of generation `now` or a later one.
abbrev pub is_old : ℕ → Status → Bool
is_old now (waiting g) = ltb g now
is_old now busy = false
is_old now exited = true

-- Every worker with an id below `n` is old.
abbrev pub AllOld : ℕ → ℕ → List Worker → Type 0
AllOld n now [] = Unit {0}
AllOld n now (w ∷ ws) = ((leb n w.id || is_old now w.status) ≡ true) × AllOld n now ws

-- The workers with an id below `n` that run a task.
abbrev pub busy_below : ℕ → List Worker → ℕ
busy_below n [] = 0
busy_below n (w ∷ ws) = (if ltb w.id n && is_busy w.status then 1 else 0) + busy_below n ws

pub AllOld-busy_below : (n now : ℕ) (ws : List Worker) → AllOld n now ws → busy_below n ws ≡ 0
AllOld-busy_below n now [] h = refl
AllOld-busy_below n now (w ∷ ws) (h, hs) = ground (arith, AllOld-busy_below n now ws hs)

pub AllOld-later : (n now : ℕ) (ws : List Worker) → AllOld n now ws → AllOld n (suc now) ws
AllOld-later n now [] h = tt
AllOld-later n now (w ∷ ws) (h, hs) = (ground arith, AllOld-later n now ws hs)

-- An old worker may only become old; one that is not is too new to matter.
pub update_at-AllOld :
    (n now i : ℕ) (s : Status) (ws : List Worker) (w : Worker)
    → get_elem? ws i ≡ some w
    → (is_old now s ≡ true) ⊎ (is_old now w.status ≡ false)
    → AllOld n now ws
    → AllOld n now (update_at i (with_status s) ws)
unfolding update_at
update_at-AllOld n now i s [] w e k h = tt
update_at-AllOld n now zero s (v ∷ ws) w e k (h, hs) = (ground arith, hs)
update_at-AllOld n now (suc i) s (v ∷ ws) w e k (h, hs) =
    (h, update_at-AllOld n now i s ws w e k hs)

cancel_worker-AllOld :
    (n now id : ℕ) (ws : List Worker) → AllOld n now ws → AllOld n now (cancel_worker id ws)
unfolding cancel_worker
cancel_worker-AllOld n now id [] h = tt
cancel_worker-AllOld n now id (w ∷ ws) (h, hs) = (ground arith, cancel_worker-AllOld n now id ws hs)

pub cancel_all-AllOld :
    (n now : ℕ) (ws : List Worker) → AllOld n now ws → AllOld n now (cancel_all ws)
unfolding cancel_all
cancel_all-AllOld n now [] h = tt
cancel_all-AllOld n now (w ∷ ws) (h, hs) = (h, cancel_all-AllOld n now ws hs)

pub stop_workers-AllOld :
    (n now k i : ℕ) (ids : List ℕ) (ws : List Worker)
    → AllOld n now ws
    → AllOld n now (stop_workers k i ids ws).1
unfolding stop_workers
stop_workers-AllOld n now zero i ids ws h = h
stop_workers-AllOld n now (suc k) i [] ws h = h
stop_workers-AllOld n now (suc k) i (id ∷ ids) ws h =
    elim (Bool-cases (ltb i (length (id ∷ ids)))) [
      | inl more ↦ rw more (
          stop_workers-AllOld n now k (i + 1) ids (cancel_worker id ws)
            (cancel_worker-AllOld n now id ws h))
      | inr done ↦ rw done h
    ]

pub can_take-new : (now : ℕ) (s : Status) → can_take now s ≡ true → is_old now s ≡ false
can_take-new now (waiting g) h = ground arith
can_take-new now busy h = refl
can_take-new now exited h = cc

pub is_busy-new : (now : ℕ) (s : Status) → is_busy s ≡ true → is_old now s ≡ false
is_busy-new now (waiting g) h = cc
is_busy-new now busy h = refl
is_busy-new now exited h = cc
