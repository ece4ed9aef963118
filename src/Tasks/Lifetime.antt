-- ===== src/Tasks/Lifetime.antt =====
-- The times to live of an execution's keys (calculateLockTTL and the renewal of dispatchTaskExecution in
-- scheduler/internal/service/task_service.go).
use bdopsflow.Prelude.{zero, suc, ◌*◌, ◌≤◌, ◌≢◌, arith}
use bdopsflow.Prelude.Int.{ℤ, pos, negsuc}
use bdopsflow.Tasks.{lock_ttl, renew_ttl, nanoseconds}

-- The lock of an execution lives for a minute at least and for two hours at most, whatever the timeout.
pub lock_ttl-bounds : (z : ℤ) → (60 ≤ lock_ttl z) × (lock_ttl z ≤ 7200)
unfolding lock_ttl
lock_ttl-bounds (pos zero) = (ground arith, ground arith)
lock_ttl-bounds (pos (suc n)) = (ground arith, ground arith)
lock_ttl-bounds (negsuc n) = (ground arith, ground arith)

-- The renewal that a dispatch stores is not given the lock's time to live: a duration is multiplied by a
-- second once more.
pub renew_ttl-wraps : (z : ℤ) → renew_ttl (lock_ttl z) ≢ pos (lock_ttl z * nanoseconds)
unfolding renew_ttl
renew_ttl-wraps z p = ground (arith, (lock_ttl-bounds z).0, (lock_ttl-bounds z).1)
