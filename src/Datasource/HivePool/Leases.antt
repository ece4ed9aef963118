-- ===== src/Datasource/HivePool/Leases.antt =====
-- The counters over any run of calls of hive_pool.go (scheduler/internal/datasource/driver).
use bdopsflow.Prelude.{
  ℕ, suc, refl, Bool, true, false, List, ◌∷◌, Option, some, if◌then◌else◌, arith,
}
use bdopsflow.Prelude.Int.{pos, ◌+ℤ◌, ◌-ℤ◌}
use bdopsflow.Datasource.HivePool.{
  PoolConfig, HiveConnPool, new_hive_conn_pool, update_config, is_expired, drop_conn, discard,
  try_acquire, acquire, resume, push, release, put, set_time, close,
}
use bdopsflow.Datasource.HivePool.Cleanup.{do_cleanup}
use bdopsflow.Datasource.HivePool.Accounting.{
  Balanced, leases, Taken, try_acquire-After, acquire-After, resume-After, push-Balanced,
  drop_conn-Balanced,
}
use bdopsflow.Datasource.HivePool.Draining.{do_cleanup-Balanced, close-Balanced}

release-Balanced :
    (n c now : ℕ) (p : HiveConnPool) → Balanced (suc n) p → Balanced n (release c now p)
unfolding release ◌-ℤ◌
release-Balanced n c now p h = by_state p.is_closed (is_expired now p c)
  where
    q : HiveConnPool
    q = record p { in_use_count = p.in_use_count -ℤ pos 1 }

    q-Taken : Taken n q
    q-Taken = record { open_taken = h.open_counted; use_taken = ground (arith, h.use_bounded) }

    by_state :
        (b e : Bool)
        → Balanced n (if b then drop_conn c q else if e then drop_conn c q else push c q)
    by_state true e = drop_conn-Balanced n c q q-Taken
    by_state false true = drop_conn-Balanced n c q q-Taken
    by_state false false = push-Balanced n c q q-Taken

put-Balanced : (n c now : ℕ) (p : HiveConnPool) → Balanced n p → Balanced n (put c now p)
unfolding put ◌+ℤ◌
put-Balanced n c now p h = by_state p.is_closed
  where
    opened : HiveConnPool
    opened = record p {
      open_count = p.open_count +ℤ pos 1;
      create_time = set_time c (some now) p.create_time;
    }

    by_state :
        (b : Bool)
        → Balanced n (if b then record p { closings = c ∷ p.closings } else push c opened)
    by_state true = record { open_counted = h.open_counted; use_bounded = h.use_bounded }
    by_state false =
        push-Balanced n c opened
          (record { open_taken = ground (arith, h.open_counted); use_taken = h.use_bounded })

handed_in : (n c : ℕ) (p : HiveConnPool) → Balanced (suc n) p → Balanced n (discard c p)
unfolding discard drop_conn ◌-ℤ◌
handed_in n c p h = record {
  open_counted = ground (arith, h.open_counted);
  use_bounded = ground (arith, h.use_bounded);
}

-- The states of a pool that calls lead to, with the number of connections on lease. A connection is given
-- back or discarded only by a caller that has it.
pub data Reaches : ℕ → HiveConnPool → Type 0 where
  starts : (cfg : PoolConfig) → Reaches 0 (new_hive_conn_pool cfg)
  acquires :
      {n : ℕ} {p : HiveConnPool} (done : Bool) (o : Option ℕ) (now : ℕ)
      → Reaches n p
      → Reaches (leases n (acquire done o now p).1) (acquire done o now p).0
  tries :
      {n : ℕ} {p : HiveConnPool} (done : Bool) (o : Option ℕ) (now : ℕ)
      → Reaches n p
      → Reaches (leases n (try_acquire done o now p).1) (try_acquire done o now p).0
  resumes :
      {n : ℕ} {p : HiveConnPool} (done : Bool) (o : Option ℕ) (now : ℕ)
      → Reaches n p
      → Reaches (leases n (resume done o now p).1) (resume done o now p).0
  releases :
      {n : ℕ} {p : HiveConnPool} (c now : ℕ) → Reaches (suc n) p → Reaches n (release c now p)
  discards : {n : ℕ} {p : HiveConnPool} (c : ℕ) → Reaches (suc n) p → Reaches n (discard c p)
  puts : {n : ℕ} {p : HiveConnPool} (c now : ℕ) → Reaches n p → Reaches n (put c now p)
  cleans :
      {n : ℕ} {p : HiveConnPool} (os : List (Option ℕ)) (now : ℕ)
      → Reaches n p
      → Reaches n (do_cleanup os now p)
  configures :
      {n : ℕ} {p : HiveConnPool} (cfg : PoolConfig) → Reaches n p → Reaches n (update_config cfg p)
  closes : {n : ℕ} {p : HiveConnPool} → Reaches n p → Reaches n (close p)

-- Whatever calls are made, the pool counts as open just the connections that are idle or on lease, and it
-- never reports more connections in use than are on lease.
pub Reaches-Balanced : {n : ℕ} {p : HiveConnPool} → Reaches n p → Balanced n p
unfolding new_hive_conn_pool update_config
Reaches-Balanced (starts cfg) = record { open_counted = refl; use_bounded = omega arith }
Reaches-Balanced (acquires done o now r) = acquire-After _ now done o _ (Reaches-Balanced r)
Reaches-Balanced (tries done o now r) = try_acquire-After _ now done o _ (Reaches-Balanced r)
Reaches-Balanced (resumes done o now r) = resume-After _ now done o _ (Reaches-Balanced r)
Reaches-Balanced (releases c now r) = release-Balanced _ c now _ (Reaches-Balanced r)
Reaches-Balanced (discards c r) = handed_in _ c _ (Reaches-Balanced r)
Reaches-Balanced (puts c now r) = put-Balanced _ c now _ (Reaches-Balanced r)
Reaches-Balanced (cleans os now r) = do_cleanup-Balanced _ now os _ (Reaches-Balanced r)
Reaches-Balanced (configures cfg r) =
    let h = Reaches-Balanced r in
    record { open_counted = h.open_counted; use_bounded = h.use_bounded }
Reaches-Balanced (closes r) = close-Balanced _ _ (Reaches-Balanced r)
