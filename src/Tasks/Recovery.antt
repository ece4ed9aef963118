-- ===== src/Tasks/Recovery.antt =====
-- What a new leader does with the executions that run (RecoverRunningTasksOnBecomeLeader and
-- calculateLockTTL of scheduler/internal/service/execution_service.go). The rows that the query finds,
-- the pings and the clock are parameters.
pub mod Dead
pub mod Losses
pub mod Outcomes
use bdopsflow.Prelude.{
  ℕ, zero, suc, ◌*◌, ◌-◌, Bool, true, false, not, ◌&&◌, ◌||◌, List, [], ◌∷◌, Option, none, some,
  if◌then◌else◌, ltb, leb, any, ◌==◌,
}
use bdopsflow.Prelude.Int.{ℤ, pos, negsuc}
use bdopsflow.Redis.{Reply, ok, err}
use bdopsflow.Tasks.Interface.{
  Status, failed, Task, Effect, del_keys, del_fail_count, set_lock, set_renew, add_log,
  start_failure, Backend,
}
use bdopsflow.Tasks.{renewal_limit, is_stale, int64, nanoseconds, clamp, update_execution_result}
use bdopsflow.Tasks.Control.{force_fail_task}

-- A row of the query; `start` is its start time, if there is one that can be parsed.
pub record Found : Type 0 where
  pub execution_id : ℕ
  pub task_id : ℕ
  pub executor_id : ℕ
  pub start : Option ℕ

pub record Seen : Type 0 where
  pub is_online : Bool
  pub last_heartbeat : Option ℕ

pub record Probe (S : Type 0) : Type 0 where
  pub running_rows : S → Reply (List Found)
  pub get_executor : ℕ → S → Reply Seen
  pub ping : ℕ → S → Bool

-- What speaks for and against an execution.
pub record Health : Type 0 where
  pub executor_online : Bool
  pub recently_active : Bool
  pub reachable : Bool
  pub no_renewal : Bool
  pub renewal_expired : Bool
  pub task_timeout : Bool

unfoldable pub should_fail : Health → Bool
should_fail h =
    not h.executor_online
    || not h.recently_active
    || not h.reachable
    || h.no_renewal
    || h.renewal_expired
    || h.task_timeout

unfoldable pub has_timed_out : Option ℕ → Option ℕ → ℕ → Bool
has_timed_out limit none now = false
has_timed_out limit (some start) now = is_stale limit (now - start)

unfoldable pub is_recent : Option ℕ → ℕ → Bool
is_recent none now = false
is_recent (some last) now = ltb (now - last) 90

-- The seconds since the renewal; the code takes 9999 where there is none.
unfoldable pub renewed_ago : Reply (Option ℕ) → ℕ → ℕ
renewed_ago err now = 9999
renewed_ago (ok none) now = 9999
renewed_ago (ok (some last)) now = now - last

unfoldable pub lacks_renewal : Reply (Option ℕ) → Bool
lacks_renewal err = true
lacks_renewal (ok none) = true
lacks_renewal (ok (some last)) = false

unfoldable pub calculate_lock_ttl : Reply Task → ℕ
calculate_lock_ttl err = clamp 300
calculate_lock_ttl (ok t) = elim t.timeout_seconds [
  | pos zero ↦ clamp 3600
  | pos (suc n) ↦ clamp (suc n * 2)
  | negsuc n ↦ clamp 3600
]

module _ {S : Type 0} (b : Backend S) (p : Probe S) where
  unfoldable pub online : Reply Seen → Bool
  online err = false
  online (ok x) = x.is_online

  unfoldable pub heartbeat : Reply Seen → Option ℕ
  heartbeat err = none
  heartbeat (ok x) = x.last_heartbeat

  -- An executor that is not online is not pinged.
  unfoldable pub health : Found → ℕ → S → Health
  health f now s =
      let limit = renewal_limit (b.get_task f.task_id s) in
      let seen = p.get_executor f.executor_id s in
      let renewal = b.get_renew f.execution_id s in
      record {
        executor_online = online seen;
        recently_active = is_recent (heartbeat seen) now;
        reachable = online seen && p.ping f.executor_id s;
        no_renewal = lacks_renewal renewal;
        renewal_expired = is_stale limit (renewed_ago renewal now);
        task_timeout = has_timed_out limit f.start now;
      }

  -- The lock and the renewal are set anew, and the failures of renewals forgotten.
  unfoldable pub renew_found : Found → ℕ → S → S
  renew_found f now s =
      let ttl = calculate_lock_ttl (b.get_task f.task_id s) in
      b.perform (add_log f.execution_id f.task_id) (
        b.perform (del_fail_count f.execution_id) (
          b.perform (set_renew f.execution_id now (int64 (ttl * nanoseconds)))
            (b.perform (set_lock f.execution_id ttl) s)))

  unfoldable pub recover_one : ℕ → Found → S → S
  recover_one now f s =
      if should_fail (health f now s)
      then force_fail_task b f.task_id f.execution_id s
      else renew_found f now s

  unfoldable pub recover_rows : ℕ → List Found → S → S
  recover_rows now [] s = s
  recover_rows now (f ∷ fs) s = recover_rows now fs (recover_one now f s)

  pub recover_reply : ℕ → S → Reply (List Found) → S × Bool
  recover_reply now s err = (s, false)
  recover_reply now s (ok fs) = (recover_rows now fs s, true)

  -- The Boolean tells whether there is no error.
  unfoldable pub recover_running_tasks : ℕ → S → S × Bool
  unfolding recover_reply
  recover_running_tasks now s = recover_reply now s (p.running_rows s)
