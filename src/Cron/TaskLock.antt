-- ===== src/Cron/TaskLock.antt =====
-- The lock on a task of scheduler/internal/cron/cron_scheduler.go: what its Lua scripts, which Redis runs
-- one at a time, make of the hash at the key.
use bdopsflow.Prelude.{
  ℕ, suc, ◌*◌, ◌^◌, ◌<◌, ◌≡◌, ◌≢◌, Bool, true, false, List, [], ◌∷◌, Option, none, some,
  if◌then◌else◌, ltb, ◌==◌, arith, ap, ◌∙◌,
}

-- `expire` is a field of the hash; the key has no time to live.
pub record TaskLock : Type 0 where
  pub owner : ℕ
  pub expire : ℕ

unfoldable pub acquire_script : ℕ → ℕ → Option TaskLock → Option TaskLock × Bool
acquire_script me expire none = (some (record { owner = me; expire = expire }), true)
acquire_script me expire (some l) =
    if l.owner == me then (some (record l { expire = expire }), true) else (some l, false)

unfoldable pub release_script : ℕ → Option TaskLock → Option TaskLock × Bool
release_script me none = (none, false)
release_script me (some l) = if l.owner == me then (none, true) else (some l, false)

unfoldable pub renew_script : ℕ → ℕ → Option TaskLock → Option TaskLock × Bool
renew_script me expire none = (none, false)
renew_script me expire (some l) =
    if l.owner == me then (some (record l { expire = expire }), true) else (some l, false)

-- One script, and the node that runs it.
pub data Script : Type 0 where
  acquires renews : (node expire : ℕ) → Script
  releases : (node : ℕ) → Script

unfoldable pub node_of : Script → ℕ
node_of (acquires node expire) = node
node_of (renews node expire) = node
node_of (releases node) = node

unfoldable pub run_script : Script → Option TaskLock → Option TaskLock × Bool
run_script (acquires node expire) l = acquire_script node expire l
run_script (renews node expire) l = renew_script node expire l
run_script (releases node) l = release_script node l

unfoldable pub run_scripts : List Script → Option TaskLock → Option TaskLock
run_scripts [] l = l
run_scripts (x ∷ xs) l = run_scripts xs (run_script x l).0

-- None of the scripts is run by the node.
unfoldable pub Without : ℕ → List Script → Type 0
Without node [] = Unit
Without node (x ∷ xs) = (node_of x ≢ node) × Without node xs

run_script-held :
    (x : Script) (l : TaskLock) → node_of x ≢ l.owner → run_script x (some l) ≡ (some l, false)
unfolding run_script node_of acquire_script renew_script release_script
run_script-held (acquires node expire) l n = ground (arith, n)
run_script-held (renews node expire) l n = ground (arith, n)
run_script-held (releases node) l n = ground (arith, n)

-- A lock stays its owner's whatever the other nodes do, and none of them acquires it: not even when the
-- time up to which it was taken has passed, so that the lock of a node that has stopped is never free.
pub run_scripts-held :
    (xs : List Script) (l : TaskLock) (node expire : ℕ)
    → Without l.owner xs
    → node ≢ l.owner
    → acquire_script node expire (run_scripts xs (some l)) ≡ (some l, false)
unfolding run_scripts Without node_of run_script
run_scripts-held [] l node expire w n = run_script-held (acquires node expire) l n
run_scripts-held (x ∷ xs) l node expire w n =
    ap (λ (r : Option TaskLock × Bool). acquire_script node expire (run_scripts xs r.0))
      (run_script-held x l w.0)
    ∙ run_scripts-held xs l node expire w.1 n

abbrev pub second : ℕ
second = 1_000_000_000

-- The time to live in nanoseconds: `time.Duration(task.TimeoutSeconds) * 2` is not multiplied by a second.
unfoldable pub cron_lock_ttl : ℕ → ℕ
cron_lock_ttl timeout_seconds =
    let ttl = timeout_seconds * 2 in
    let at_least = if ltb ttl (60 * second) then 60 * second else ttl in
    let at_most = if ltb (7200 * second) at_least then 7200 * second else at_least in
    if timeout_seconds == 0 then 600 * second else at_most

-- The lock of a task with a timeout, a signed number of 32 bits, is taken for a minute whatever the timeout.
pub cron_lock_ttl-constant : (n : ℕ) → suc n < 2 ^ 31 → cron_lock_ttl (suc n) ≡ 60 * second
unfolding cron_lock_ttl
cron_lock_ttl-constant n h = ground arith
