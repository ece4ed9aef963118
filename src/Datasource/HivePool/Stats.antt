-- ===== src/Datasource/HivePool/Stats.antt =====
-- The numbers that hive_pool.go (scheduler/internal/datasource/driver) reports.
use bdopsflow.Prelude.{
  ℕ, ◌+◌, ◌≡◌, sym, subst, true, false, List, ◌∷◌, some, if◌then◌else◌, arith, length,
}
use bdopsflow.Prelude.Int.{ℤ, pos, negsuc, ◌+ℤ◌, ◌-ℤ◌, ◌≤ℤ◌, ltb_ℤ}
use bdopsflow.Datasource.HivePool.{
  HiveConnPool, is_expired, drop_conn, discard, leased, lease, create, has_room, try_create_conn,
  try_acquire_from, try_acquire,
}
use bdopsflow.Datasource.HivePool.Cleanup.{stats}
use bdopsflow.Datasource.HivePool.Leases.{Reaches, Reaches-Balanced}

-- What `stats` makes of the two counters.
abbrev used : ℤ → ℤ → ℤ
used o u = let iu = if ltb_ℤ u (pos 0) then pos 0 else u in if ltb_ℤ o iu then o else iu

abbrev idle_of : ℤ → ℤ → ℤ
idle_of o u = let idle = o -ℤ used o u in if ltb_ℤ idle (pos 0) then pos 0 else idle

shares :
    (l n : ℕ) (o u : ℤ)
    → o ≡ pos (l + n)
    → u ≤ℤ pos n
    → (idle_of o u +ℤ used o u ≡ o) × (pos l ≤ℤ idle_of o u) × (used o u ≤ℤ pos n)
unfolding ◌+ℤ◌ ◌-ℤ◌
shares l n (pos m) (pos k) h b = (ground arith, ground arith, ground arith)
shares l n (pos m) (negsuc k) h b = (ground arith, ground arith, ground arith)
shares l n (negsuc m) u h b = absurd cc

-- The idle and the used connections that are reported make up the open ones, whatever calls were made; no
-- fewer are reported idle than are, and no more in use than are on lease.
pub stats-Reaches :
    {n : ℕ} {p : HiveConnPool}
    → Reaches n p
    → ((stats p).1 +ℤ (stats p).2 ≡ (stats p).0)
      × (pos (length p.conns) ≤ℤ (stats p).1)
      × ((stats p).2 ≤ℤ pos n)
unfolding stats
stats-Reaches {n = n} {p = p} r =
    let h = Reaches-Balanced r in
    shares (length p.conns) n p.open_count p.in_use_count h.open_counted h.use_bounded

-- An expired connection that is discarded while a call acquires another one was not counted as in use, yet
-- the counter goes down for it: the call leaves the counter as it was, with one connection more on lease.
pub try_acquire-undercounts :
    (n now c d : ℕ) (cs : List ℕ) (p : HiveConnPool)
    → Reaches n p
    → p.conns ≡ c ∷ cs
    → is_expired now p c ≡ true
    → p.open_count ≤ℤ pos p.config.max_open
    → ((try_acquire false (some d) now p).1 ≡ leased d)
      × ((try_acquire false (some d) now p).0.in_use_count ≡ p.in_use_count)
unfolding try_acquire try_acquire_from try_create_conn create lease has_room discard drop_conn ◌+ℤ◌
    ◌-ℤ◌
try_acquire-undercounts n now c d cs p r e x b =
    subst
      (λ l.
        ((try_acquire_from l (some d) now p).1 ≡ leased d)
        × ((try_acquire_from l (some d) now p).0.in_use_count ≡ p.in_use_count))
      (sym e) (ground (arith, x, b), ground (arith, x, b))
