-- ===== src/Datasource/HivePool.antt =====
-- scheduler/internal/datasource/driver/hive_pool.go: the pool of Hive connections. The state has the
-- channel of idle connections, the counters and when each connection was made. Opening and closing a
-- connection belong to github.com/beltran/gohive: the id of the connection that an opening gives, none if
-- it fails, is an argument. A call is one step, and one that waits for a connection is resumed by `resume`;
-- two goroutines that race for the counter of open connections are not modelled.
pub mod Accounting
pub mod Cleanup
pub mod Draining
pub mod Leases
pub mod Stats
use bdopsflow.Prelude.{
  ℕ, zero, suc, ◌+◌, ◌-◌, Bool, true, false, not, ◌&&◌, ◌||◌, List, [], ◌∷◌, ◌++◌, Option, none,
  some, if◌then◌else◌, ltb, ◌==◌, length,
}
use bdopsflow.Prelude.Int.{ℤ, pos, negsuc, ◌+ℤ◌, ◌-ℤ◌, ltb_ℤ}

-- Durations are seconds. A negative number is 0: the code treats both alike.
pub record PoolConfig : Type 0 where
  pub max_open : ℕ
  pub min_idle : ℕ
  pub max_lifetime : ℕ
  pub acquire_timeout : ℕ

unfoldable pub default_pool_config : PoolConfig
default_pool_config = record {
  max_open = 5;
  min_idle = 2;
  max_lifetime = 1800;
  acquire_timeout = 30;
}

or_default : ℕ → ℕ → ℕ
or_default zero d = d
or_default (suc n) d = suc n

-- `conns` is the channel, oldest first, with room for `size`; `closings` are the connections closed.
pub record HiveConnPool : Type 0 where
  pub conns : List ℕ
  pub size : ℕ
  pub config : PoolConfig
  pub open_count : ℤ
  pub in_use_count : ℤ
  pub create_time : ℕ → Option ℕ
  pub is_closed : Bool
  pub closings : List ℕ

unfoldable pub new_hive_conn_pool : PoolConfig → HiveConnPool
unfolding or_default
new_hive_conn_pool cfg =
    let max_open = or_default cfg.max_open 5 in
    record {
      conns = [];
      size = max_open;
      config = record cfg {
        max_open = max_open;
        min_idle = if ltb max_open cfg.min_idle then max_open else cfg.min_idle;
        acquire_timeout = or_default cfg.acquire_timeout 30;
      };
      open_count = pos 0;
      in_use_count = pos 0;
      create_time = λ c. none;
      is_closed = false;
      closings = [];
    }

-- The least number of idle connections is not held below the new maximum here.
unfoldable pub update_config : PoolConfig → HiveConnPool → HiveConnPool
unfolding or_default
update_config cfg p = record p {
  config = record cfg {
    max_open = or_default cfg.max_open 5;
    acquire_timeout = or_default cfg.acquire_timeout 30;
  };
}

pub set_time : ℕ → Option ℕ → (ℕ → Option ℕ) → ℕ → Option ℕ
set_time c t times j = if j == c then t else times j

is_older : ℕ → ℕ → Option ℕ → Bool
is_older limit now none = false
is_older limit now (some t) = ltb limit (now - t)

-- Has the connection passed its longest life?
unfoldable pub is_expired : ℕ → HiveConnPool → ℕ → Bool
unfolding is_older
is_expired now p c =
    ltb 0 p.config.max_lifetime && is_older p.config.max_lifetime now (p.create_time c)

-- Close a connection, and count it no more.
unfoldable pub drop_conn : ℕ → HiveConnPool → HiveConnPool
unfolding set_time
drop_conn c p = record p {
  closings = c ∷ p.closings;
  create_time = set_time c none p.create_time;
  open_count = p.open_count -ℤ pos 1;
}

unfoldable pub discard : ℕ → HiveConnPool → HiveConnPool
discard c p = let q = drop_conn c p in record q { in_use_count = q.in_use_count -ℤ pos 1 }

pub data Acquired : Type 0 where
  leased : (conn : ℕ) → Acquired
  context_done create_failed pool_full timed_out : Acquired
  waits : Acquired

unfoldable pub lease : ℕ → HiveConnPool → HiveConnPool × Acquired
lease c p = (record p { in_use_count = p.in_use_count +ℤ pos 1 }, leased c)

unfoldable pub create : Option ℕ → ℕ → HiveConnPool → HiveConnPool × Acquired
unfolding set_time
create none now p = (p, create_failed)
create (some c) now p = lease c (record p {
  open_count = p.open_count +ℤ pos 1;
  create_time = set_time c (some now) p.create_time;
})

unfoldable pub has_room : HiveConnPool → Bool
has_room p = ltb_ℤ p.open_count (pos p.config.max_open)

unfoldable pub try_create_conn : Option ℕ → ℕ → HiveConnPool → HiveConnPool × Acquired
try_create_conn opened now p = if has_room p then create opened now p else (p, pool_full)

unfoldable pub try_acquire_from : List ℕ → Option ℕ → ℕ → HiveConnPool → HiveConnPool × Acquired
try_acquire_from [] opened now p = try_create_conn opened now p
try_acquire_from (c ∷ cs) opened now p =
    let q = record p { conns = cs } in
    if is_expired now p c then try_create_conn opened now (discard c q) else lease c q

-- `done` tells whether the context has ended.
unfoldable pub try_acquire : Bool → Option ℕ → ℕ → HiveConnPool → HiveConnPool × Acquired
try_acquire true opened now p = (p, context_done)
try_acquire false opened now p = try_acquire_from p.conns opened now p

-- The list is the channel of the pool: an expired connection that the wait gives starts over.
unfoldable pub acquire_or_create : List ℕ → Option ℕ → ℕ → HiveConnPool → HiveConnPool × Acquired
acquire_or_create [] opened now p = if has_room p then create opened now p else (p, waits)
acquire_or_create (c ∷ cs) opened now p =
    let q = record p { conns = cs } in
    let rest = acquire_or_create cs opened now (discard c q) in
    if has_room p then create opened now p else if is_expired now p c then rest else lease c q

unfoldable pub acquire_from : List ℕ → Option ℕ → ℕ → HiveConnPool → HiveConnPool × Acquired
acquire_from [] opened now p = acquire_or_create [] opened now p
acquire_from (c ∷ cs) opened now p =
    let q = record p { conns = cs } in
    if is_expired now p c then acquire_or_create cs opened now (discard c q) else lease c q

unfoldable pub acquire : Bool → Option ℕ → ℕ → HiveConnPool → HiveConnPool × Acquired
acquire true opened now p = (p, context_done)
acquire false opened now p = acquire_from p.conns opened now p

-- A call that waits takes a connection when there is one, or ends with its context.
unfoldable pub resume_from : List ℕ → Bool → Option ℕ → ℕ → HiveConnPool → HiveConnPool × Acquired
resume_from [] true opened now p = (p, timed_out)
resume_from [] false opened now p = (p, waits)
resume_from (c ∷ cs) done opened now p =
    let q = record p { conns = cs } in
    if is_expired now p c then acquire_or_create cs opened now (discard c q) else lease c q

unfoldable pub resume : Bool → Option ℕ → ℕ → HiveConnPool → HiveConnPool × Acquired
resume done opened now p = resume_from p.conns done opened now p

unfoldable pub push : ℕ → HiveConnPool → HiveConnPool
push c p =
    if ltb (length p.conns) p.size then record p { conns = p.conns ++ c ∷ [] } else drop_conn c p

unfoldable pub release : ℕ → ℕ → HiveConnPool → HiveConnPool
release c now p =
    let q = record p { in_use_count = p.in_use_count -ℤ pos 1 } in
    if p.is_closed then drop_conn c q else if is_expired now p c then drop_conn c q else push c q

-- A new connection for the warm-up.
unfoldable pub put : ℕ → ℕ → HiveConnPool → HiveConnPool
unfolding set_time
put c now p =
    if p.is_closed
    then record p { closings = c ∷ p.closings }
    else push c (record p {
      open_count = p.open_count +ℤ pos 1;
      create_time = set_time c (some now) p.create_time;
    })

pub drop_all : List ℕ → HiveConnPool → HiveConnPool
drop_all [] p = p
drop_all (c ∷ cs) p = drop_all cs (drop_conn c p)

-- A second call panics: the channel that stops the cleanup is closed already.
unfoldable pub close : HiveConnPool → HiveConnPool
unfolding drop_all
close p = drop_all p.conns (record p { is_closed = true; conns = [] })
