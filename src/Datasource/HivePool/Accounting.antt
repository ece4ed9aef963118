-- ===== src/Datasource/HivePool/Accounting.antt =====
-- What the counters of hive_pool.go (scheduler/internal/datasource/driver) count.
use bdopsflow.Prelude.{
  ℕ, suc, ◌+◌, ◌≡◌, refl, ap, Bool, true, false, List, [], ◌∷◌, ◌++◌, Option, none, some,
  if◌then◌else◌, ltb, arith, length, length-append,
}
use bdopsflow.Prelude.Int.{pos, ◌+ℤ◌, ◌-ℤ◌, ◌≤ℤ◌}
use bdopsflow.Datasource.HivePool.{
  HiveConnPool, is_expired, drop_conn, discard, Acquired, leased, context_done, create_failed,
  pool_full, timed_out, waits, lease, create, has_room, try_create_conn, try_acquire_from,
  try_acquire, acquire_or_create, acquire_from, acquire, resume_from, resume, push,
}

-- With `n` connections on lease: every open connection is idle or on lease, and no more are reported in
-- use than are on lease.
pub record Balanced (n : ℕ) (p : HiveConnPool) : Type 0 where
  pub open_counted : p.open_count ≡ pos (length p.conns + n)
  pub use_bounded : p.in_use_count ≤ℤ pos n

-- The connections on lease after a call.
unfoldable pub leases : ℕ → Acquired → ℕ
leases n (leased c) = suc n
leases n context_done = n
leases n create_failed = n
leases n pool_full = n
leases n timed_out = n
leases n waits = n

abbrev pub After : ℕ → HiveConnPool × Acquired → Type 0
After n r = Balanced (leases n r.1) r.0

-- One connection is counted as open, and is neither idle nor on lease.
pub record Taken (n : ℕ) (p : HiveConnPool) : Type 0 where
  pub open_taken : p.open_count ≡ pos (length p.conns + suc n)
  pub use_taken : p.in_use_count ≤ℤ pos n

lease-After : (n c : ℕ) (p : HiveConnPool) → Taken n p → After n (lease c p)
unfolding lease leases ◌+ℤ◌
lease-After n c p t = record {
  open_counted = t.open_taken;
  use_bounded = ground (arith, t.use_taken);
}

pub discard-Balanced : (n c : ℕ) (p : HiveConnPool) → Taken n p → Balanced n (discard c p)
unfolding discard drop_conn ◌-ℤ◌
discard-Balanced n c p t = record {
  open_counted = ground (arith, t.open_taken);
  use_bounded = ground (arith, t.use_taken);
}

create-After :
    (n now : ℕ) (o : Option ℕ) (p : HiveConnPool) → Balanced n p → After n (create o now p)
unfolding create leases ◌+ℤ◌
create-After n now none p h = h
create-After n now (some c) p h =
    lease-After n c _
      (record { open_taken = ground (arith, h.open_counted); use_taken = h.use_bounded })

try_create_conn-After :
    (n now : ℕ) (o : Option ℕ) (p : HiveConnPool) → Balanced n p → After n (try_create_conn o now p)
unfolding try_create_conn leases
try_create_conn-After n now o p h = by_room (has_room p)
  where
    by_room : (c : Bool) → After n (if c then create o now p else (p, pool_full))
    by_room true = create-After n now o p h
    by_room false = h

taken :
    (n c : ℕ) (cs : List ℕ) (p : HiveConnPool)
    → p.conns ≡ c ∷ cs
    → Balanced n p
    → Taken n (record p { conns = cs })
taken n c cs p e h = record {
  open_taken = ground (arith, h.open_counted, ap length e);
  use_taken = h.use_bounded;
}

-- Take the first connection: an expired one is discarded and `next` goes on, another one goes on lease.
take_first :
    (n c : ℕ) (cs : List ℕ) (p : HiveConnPool) (next : HiveConnPool × Acquired)
    → p.conns ≡ c ∷ cs
    → Balanced n p
    → (Balanced n (discard c (record p { conns = cs })) → After n next)
    → (old : Bool) → After n (if old then next else lease c (record p { conns = cs }))
take_first n c cs p next e h go true = go (discard-Balanced n c _ (taken n c cs p e h))
take_first n c cs p next e h go false = lease-After n c _ (taken n c cs p e h)

pub try_acquire-After :
    (n now : ℕ) (done : Bool) (o : Option ℕ) (p : HiveConnPool)
    → Balanced n p
    → After n (try_acquire done o now p)
unfolding try_acquire leases try_acquire_from
try_acquire-After n now true o p h = h
try_acquire-After n now false o p h = by_conns p.conns refl
  where
    by_conns : (cs : List ℕ) → p.conns ≡ cs → After n (try_acquire_from cs o now p)
    by_conns [] e = try_create_conn-After n now o p h
    by_conns (c ∷ cs) e =
        take_first n c cs p _ e h (try_create_conn-After n now o _) (is_expired now p c)

acquire_or_create-After :
    (n now : ℕ) (o : Option ℕ) (cs : List ℕ) (p : HiveConnPool)
    → p.conns ≡ cs
    → Balanced n p
    → After n (acquire_or_create cs o now p)
unfolding acquire_or_create leases discard drop_conn
acquire_or_create-After n now o [] p e h = by_room (has_room p)
  where
    by_room : (c : Bool) → After n (if c then create o now p else (p, waits))
    by_room true = create-After n now o p h
    by_room false = h
acquire_or_create-After n now o (c ∷ cs) p e h =
    by_room (acquire_or_create-After n now o cs (discard c (record p { conns = cs })) refl)
      (has_room p)
  where
    rest : HiveConnPool × Acquired
    rest = acquire_or_create cs o now (discard c (record p { conns = cs }))

    by_room :
        (Balanced n (discard c (record p { conns = cs })) → After n rest)
        → (room : Bool)
        → After n (
            if room
            then create o now p
            else if is_expired now p c
            then rest
            else lease c (record p { conns = cs }))
    by_room go true = create-After n now o p h
    by_room go false = take_first n c cs p rest e h go (is_expired now p c)

pub acquire-After :
    (n now : ℕ) (done : Bool) (o : Option ℕ) (p : HiveConnPool)
    → Balanced n p
    → After n (acquire done o now p)
unfolding acquire leases discard drop_conn acquire_from
acquire-After n now true o p h = h
acquire-After n now false o p h = by_conns p.conns refl
  where
    by_conns : (cs : List ℕ) → p.conns ≡ cs → After n (acquire_from cs o now p)
    by_conns [] e = acquire_or_create-After n now o [] p e h
    by_conns (c ∷ cs) e =
        take_first n c cs p _ e h (acquire_or_create-After n now o cs _ refl) (is_expired now p c)

pub resume-After :
    (n now : ℕ) (done : Bool) (o : Option ℕ) (p : HiveConnPool)
    → Balanced n p
    → After n (resume done o now p)
unfolding resume resume_from leases discard drop_conn
resume-After n now done o p h = by_conns p.conns done refl
  where
    by_conns : (cs : List ℕ) (d : Bool) → p.conns ≡ cs → After n (resume_from cs d o now p)
    by_conns [] true e = h
    by_conns [] false e = h
    by_conns (c ∷ cs) d e =
        take_first n c cs p _ e h (acquire_or_create-After n now o cs _ refl) (is_expired now p c)

pub push-Balanced : (n c : ℕ) (p : HiveConnPool) → Taken n p → Balanced n (push c p)
unfolding push drop_conn ◌-ℤ◌
push-Balanced n c p l = by_room (ltb (length p.conns) p.size)
  where
    by_room :
        (b : Bool)
        → Balanced n (if b then record p { conns = p.conns ++ c ∷ [] } else drop_conn c p)
    by_room true = record {
      open_counted = ground (arith, l.open_taken, length-append p.conns (c ∷ []));
      use_bounded = l.use_taken;
    }
    by_room false = record {
      open_counted = ground (arith, l.open_taken);
      use_bounded = l.use_taken;
    }

pub drop_conn-Balanced : (n c : ℕ) (p : HiveConnPool) → Taken n p → Balanced n (drop_conn c p)
unfolding drop_conn ◌-ℤ◌
drop_conn-Balanced n c p l = record {
  open_counted = ground (arith, l.open_taken);
  use_bounded = l.use_taken;
}
