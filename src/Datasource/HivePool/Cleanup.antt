-- ===== src/Datasource/HivePool/Cleanup.antt =====
-- What hive_pool.go of scheduler/internal/datasource/driver does every minute (doCleanup), and the
-- numbers that it reports (stats).
use bdopsflow.Prelude.{
  ℕ, zero, suc, ◌-◌, List, [], ◌∷◌, ◌++◌, Option, none, some, if◌then◌else◌, ltb, min, length,
}
use bdopsflow.Prelude.Int.{ℤ, pos, ◌+ℤ◌, ◌-ℤ◌, ltb_ℤ, pos_part}
use bdopsflow.Datasource.HivePool.{HiveConnPool, is_expired, drop_conn, push, set_time}

-- Open, idle, in use and the maximum.
unfoldable pub stats : HiveConnPool → ℤ × ℤ × ℤ × ℕ
stats p =
    let oc = p.open_count in
    let iu = if ltb_ℤ p.in_use_count (pos 0) then pos 0 else p.in_use_count in
    let in_use = if ltb_ℤ oc iu then oc else iu in
    let idle = oc -ℤ in_use in
    (oc, (if ltb_ℤ idle (pos 0) then pos 0 else idle), in_use, p.config.max_open)

-- The channel is emptied, and the connections that are not expired are kept.
unfoldable pub drain : ℕ → List ℕ → HiveConnPool → HiveConnPool × List ℕ
drain now [] p = (p, [])
drain now (c ∷ cs) p =
    let gone = drain now cs (drop_conn c p) in
    let kept = drain now cs p in if is_expired now p c then gone else (kept.0, c ∷ kept.1)

unfoldable pub requeue : List ℕ → HiveConnPool → HiveConnPool
requeue [] p = p
requeue (c ∷ cs) p = requeue cs (push c p)

-- A connection for which the channel has no room is closed again; its time stays.
unfoldable pub add_idle : ℕ → ℕ → HiveConnPool → HiveConnPool
unfolding set_time
add_idle c now p =
    let q = record p { create_time = set_time c (some now) p.create_time } in
    if ltb (length p.conns) p.size
    then record q { open_count = p.open_count +ℤ pos 1; conns = p.conns ++ c ∷ [] }
    else record q { closings = c ∷ p.closings }

-- The openings are the results of the calls, in order.
unfoldable pub fill : ℕ → List (Option ℕ) → ℕ → HiveConnPool → HiveConnPool
fill zero openings now p = p
fill (suc n) [] now p = p
fill (suc n) (none ∷ os) now p = fill n os now p
fill (suc n) (some c ∷ os) now p = fill n os now (add_idle c now p)

-- How many connections are missing, within the maximum.
unfoldable pub need : HiveConnPool → ℕ
need p =
    let idle = length p.conns in
    let room = pos_part (pos p.config.max_open -ℤ p.open_count) in
    min (p.config.min_idle - idle) room

unfoldable pub do_cleanup : List (Option ℕ) → ℕ → HiveConnPool → HiveConnPool
do_cleanup openings now p =
    let drained = drain now p.conns (record p { conns = [] }) in
    let kept = requeue drained.1 drained.0 in
    if p.is_closed then p else fill (need kept) openings now kept
