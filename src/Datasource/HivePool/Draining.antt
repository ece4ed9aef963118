-- ===== src/Datasource/HivePool/Draining.antt =====
-- The counters when the channel of hive_pool.go (scheduler/internal/datasource/driver) is emptied.
use bdopsflow.Prelude.{
  ℕ, zero, suc, ◌+◌, ◌≡◌, subst, Bool, true, false, List, [], ◌∷◌, ◌++◌, Option, none, some,
  if◌then◌else◌, ltb, arith, length, length-append,
}
use bdopsflow.Prelude.Int.{pos, ◌+ℤ◌, ◌-ℤ◌, ◌≤ℤ◌}
use bdopsflow.Datasource.HivePool.{
  HiveConnPool, is_expired, drop_conn, push, set_time, drop_all, close,
}
use bdopsflow.Datasource.HivePool.Cleanup.{drain, requeue, add_idle, fill, need, do_cleanup}
use bdopsflow.Datasource.HivePool.Accounting.{Balanced}

-- `m` connections are counted as open, and are neither idle nor on lease.
record Spare (n m : ℕ) (p : HiveConnPool) : Type 0 where
  open_spare : p.open_count ≡ pos (length p.conns + (n + m))
  use_spare : p.in_use_count ≤ℤ pos n

Spare-at : {n m k : ℕ} {p : HiveConnPool} → m ≡ k → Spare n m p → Spare n k p
Spare-at {n = n} {p = p} e s = subst (λ i. Spare n i p) e s

none-Spare : {n : ℕ} {p : HiveConnPool} → Spare n 0 p → Balanced n p
none-Spare s = record { open_counted = ground (arith, s.open_spare); use_bounded = s.use_spare }

drop_conn-Spare : (n m c : ℕ) (p : HiveConnPool) → Spare n (suc m) p → Spare n m (drop_conn c p)
unfolding drop_conn ◌-ℤ◌
drop_conn-Spare n m c p s = record {
  open_spare = ground (arith, s.open_spare);
  use_spare = s.use_spare;
}

push-Spare : (n m c : ℕ) (p : HiveConnPool) → Spare n (suc m) p → Spare n m (push c p)
unfolding push
push-Spare n m c p s = by_room (ltb (length p.conns) p.size)
  where
    by_room :
        (b : Bool) → Spare n m (if b then record p { conns = p.conns ++ c ∷ [] } else drop_conn c p)
    by_room true = record {
      open_spare = ground (arith, s.open_spare, length-append p.conns (c ∷ []));
      use_spare = s.use_spare;
    }
    by_room false = drop_conn-Spare n m c p s

drop_all-Balanced :
    (n : ℕ) (cs : List ℕ) (p : HiveConnPool) → Spare n (length cs) p → Balanced n (drop_all cs p)
unfolding drop_all
drop_all-Balanced n [] p s = none-Spare s
drop_all-Balanced n (c ∷ cs) p s = drop_all-Balanced n cs _ (drop_conn-Spare n (length cs) c p s)

requeue-Balanced :
    (n : ℕ) (cs : List ℕ) (p : HiveConnPool) → Spare n (length cs) p → Balanced n (requeue cs p)
unfolding requeue
requeue-Balanced n [] p s = none-Spare s
requeue-Balanced n (c ∷ cs) p s = requeue-Balanced n cs _ (push-Spare n (length cs) c p s)

-- With the ones that are kept aside, `m` connections are out of the channel.
drain-Spare :
    (n m now : ℕ) (cs : List ℕ) (p : HiveConnPool)
    → Spare n (m + length cs) p
    → Spare n (m + length (drain now cs p).1) (drain now cs p).0
unfolding drain
drain-Spare n m now [] p s = s
drain-Spare n m now (c ∷ cs) p s =
    by_age
      (drain-Spare n m now cs (drop_conn c p) (drop_conn-Spare n _ c p (Spare-at (omega arith) s)))
      (Spare-at (omega arith) (drain-Spare n (suc m) now cs p (Spare-at (omega arith) s)))
      (is_expired now p c)
  where
    gone : HiveConnPool × List ℕ
    gone = drain now cs (drop_conn c p)

    kept : HiveConnPool × List ℕ
    kept = drain now cs p

    by_age :
        Spare n (m + length gone.1) gone.0
        → Spare n (m + suc (length kept.1)) kept.0
        → (b : Bool)
        → Spare n
            (m + length (if b then gone else (kept.0, c ∷ kept.1)).1)
            (if b then gone else (kept.0, c ∷ kept.1)).0
    by_age g k true = g
    by_age g k false = k

out_of_channel :
    (n : ℕ) (p : HiveConnPool) → Balanced n p → Spare n (length p.conns) (record p { conns = [] })
out_of_channel n p h = record {
  open_spare = ground (arith, h.open_counted);
  use_spare = h.use_bounded;
}

add_idle-Balanced : (n c now : ℕ) (p : HiveConnPool) → Balanced n p → Balanced n (add_idle c now p)
unfolding add_idle ◌+ℤ◌
add_idle-Balanced n c now p h = by_room (ltb (length p.conns) p.size)
  where
    q : HiveConnPool
    q = record p { create_time = set_time c (some now) p.create_time }

    by_room :
        (b : Bool)
        → Balanced n (
            if b
            then record q { open_count = p.open_count +ℤ pos 1; conns = p.conns ++ c ∷ [] }
            else record q { closings = c ∷ p.closings })
    by_room true = record {
      open_counted = ground (arith, h.open_counted, length-append p.conns (c ∷ []));
      use_bounded = h.use_bounded;
    }
    by_room false = record { open_counted = h.open_counted; use_bounded = h.use_bounded }

fill-Balanced :
    (n k now : ℕ) (os : List (Option ℕ)) (p : HiveConnPool)
    → Balanced n p
    → Balanced n (fill k os now p)
unfolding fill
fill-Balanced n zero now os p h = h
fill-Balanced n (suc k) now [] p h = h
fill-Balanced n (suc k) now (none ∷ os) p h = fill-Balanced n k now os p h
fill-Balanced n (suc k) now (some c ∷ os) p h =
    fill-Balanced n k now os _ (add_idle-Balanced n c now p h)

pub do_cleanup-Balanced :
    (n now : ℕ) (os : List (Option ℕ)) (p : HiveConnPool)
    → Balanced n p
    → Balanced n (do_cleanup os now p)
unfolding do_cleanup
do_cleanup-Balanced n now os p h = by_state p.is_closed
  where
    drained : HiveConnPool × List ℕ
    drained = drain now p.conns (record p { conns = [] })

    kept : HiveConnPool
    kept = requeue drained.1 drained.0

    by_state : (b : Bool) → Balanced n (if b then p else fill (need kept) os now kept)
    by_state true = h
    by_state false = fill-Balanced n (need kept) now os kept (
        requeue-Balanced n drained.1 drained.0 (
          Spare-at (omega arith)
            (drain-Spare n 0 now p.conns _ (Spare-at (omega arith) (out_of_channel n p h)))))

pub close-Balanced : (n : ℕ) (p : HiveConnPool) → Balanced n p → Balanced n (close p)
unfolding close
close-Balanced n p h =
    drop_all-Balanced n p.conns _
      (record { open_spare = ground (arith, h.open_counted); use_spare = h.use_bounded })
