-- ===== src/Cron/Firing.antt =====
-- What a scheduler does when a task is due (executeTask of scheduler/internal/cron/cron_scheduler.go).
use bdopsflow.Prelude.{
  ℕ, ◌+◌, ◌/◌, ◌≡◌, refl, sym, ap, subst, Bool, true, false, Option, none, some, if◌then◌else◌,
}
use bdopsflow.Redis.{Reply, ok, err}
use bdopsflow.Cron.{
  CronTable, CronScheduler, CronTask, unregister_task, sync_paused_from_redis, is_paused,
}
use bdopsflow.Cron.TaskLock.{TaskLock, acquire_script, release_script, cron_lock_ttl, second}

-- The scheduler service, and Redis: `eval` runs a script at the key of a task.
pub record Service (S E : Type 0) : Type 0 where
  pub get_task : ℕ → S → Reply (CronTask E)
  pub trigger_task : ℕ → S → S
  pub paused : S → Reply Bool
  pub eval : (Option TaskLock → Option TaskLock × Bool) → (task_id : ℕ) → S → S × Reply Bool

pub data Fired : Type 0 where
  skipped fired : Fired

module _ {C E S : Type 0} (table : CronTable C E) (svc : Service S E) (node now : ℕ) where
  abbrev Outcome : Type 0
  Outcome = CronScheduler C × S × Fired

  unfoldable pub acquire_task_lock : CronScheduler C → ℕ → ℕ → S → S × Reply Bool
  acquire_task_lock cs t ttl s =
      if cs.has_redis then svc.eval (acquire_script node (now + ttl / second)) t s else (s, ok true)

  unfoldable pub release_task_lock : CronScheduler C → ℕ → S → S
  release_task_lock cs t s = if cs.has_redis then (svc.eval (release_script node) t s).0 else s

  -- The renewals of the lock run beside the trigger.
  after_lock : CronScheduler C → ℕ → S × Reply Bool → Outcome
  after_lock cs t (s, err) = (cs, s, skipped)
  after_lock cs t (s, ok false) = (cs, s, skipped)
  after_lock cs t (s, ok true) = (cs, release_task_lock cs t (svc.trigger_task t s), fired)

  with_expression : CronScheduler C → ℕ → CronTask E → S → Option E → Outcome
  unfolding after_lock
  with_expression cs t task s none = (unregister_task table t cs, s, skipped)
  with_expression cs t task s (some e) =
      after_lock cs t (acquire_task_lock cs t (cron_lock_ttl task.timeout_seconds) s)

  with_task : CronScheduler C → ℕ → S → Reply (CronTask E) → Outcome
  unfolding with_expression
  with_task cs t s err = (cs, s, skipped)
  with_task cs t s (ok task) =
      if task.is_enabled
      then with_expression cs t task s task.expression
      else (unregister_task table t cs, s, skipped)

  -- The state of the pause is read from Redis first, and again if that failed and the last reading is old.
  unfoldable pub pause_state : CronScheduler C → S → CronScheduler C × Bool
  pause_state cs s =
      let q = if cs.has_redis then sync_paused_from_redis table now (svc.paused s) cs else cs in
      is_paused table now (svc.paused s) q

  unless_paused : ℕ → S → CronScheduler C × Bool → Outcome
  unfolding with_task
  unless_paused t s (cs, true) = (cs, s, skipped)
  unless_paused t s (cs, false) = with_task cs t s (svc.get_task t s)

  unfoldable pub execute_task : ℕ → CronScheduler C → S → Outcome
  unfolding unless_paused
  execute_task t cs s =
      if cs.is_leader then unless_paused t s (pause_state cs s) else (cs, s, skipped)

  -- What must hold for a task to be triggered.
  pub record MayFire (t : ℕ) (cs : CronScheduler C) (s : S) : Type 0 where
    pub task : CronTask E
    pub expression : E
    pub leads : cs.is_leader ≡ true
    pub runs : (pause_state cs s).1 ≡ false
    pub is_task : svc.get_task t s ≡ ok task
    pub is_on : task.is_enabled ≡ true
    pub has_expression : task.expression ≡ some expression
    pub holds :
        (acquire_task_lock (pause_state cs s).0 t (cron_lock_ttl task.timeout_seconds) s).1
        ≡ ok true

  after_lock-fired :
      (cs : CronScheduler C) (t : ℕ) (r : S × Reply Bool)
      → (after_lock cs t r).2 ≡ fired
      → r.1 ≡ ok true
  unfolding after_lock
  after_lock-fired cs t (s, err) h = cc
  after_lock-fired cs t (s, ok false) h = cc
  after_lock-fired cs t (s, ok true) h = refl

  -- A task that is due is triggered only by the leader, only while the scheduler is not paused, only if it
  -- is still enabled and has a cron expression, and only with the lock on it.
  pub execute_task-MayFire :
      (t : ℕ) (cs : CronScheduler C) (s : S) → (execute_task t cs s).2 ≡ fired → MayFire t cs s
  unfolding execute_task
  execute_task-MayFire t cs s = by_leader cs.is_leader refl
    where
      by_expression :
          (task : CronTask E) (o : Option E)
          → cs.is_leader ≡ true
          → (pause_state cs s).1 ≡ false
          → svc.get_task t s ≡ ok task
          → task.is_enabled ≡ true
          → task.expression ≡ o
          → (with_expression (pause_state cs s).0 t task s o).2 ≡ fired
          → MayFire t cs s
      by_expression task none l p g e x h = cc
      by_expression task (some a) l p g e x h = record {
        task = task;
        expression = a;
        leads = l;
        runs = p;
        is_task = g;
        is_on = e;
        has_expression = x;
        holds = after_lock-fired (pause_state cs s).0 t _ h;
      }

      by_enabled :
          (task : CronTask E) (b : Bool)
          → cs.is_leader ≡ true
          → (pause_state cs s).1 ≡ false
          → svc.get_task t s ≡ ok task
          → task.is_enabled ≡ b
          → (if b
              then with_expression (pause_state cs s).0 t task s task.expression
              else (unregister_task table t (pause_state cs s).0, s, skipped)).2
            ≡ fired
          → MayFire t cs s
      by_enabled task true l p g e h = by_expression task task.expression l p g e refl h
      by_enabled task false l p g e h = cc

      by_task :
          (r : Reply (CronTask E))
          → cs.is_leader ≡ true
          → (pause_state cs s).1 ≡ false
          → svc.get_task t s ≡ r
          → (with_task (pause_state cs s).0 t s r).2 ≡ fired
          → MayFire t cs s
      by_task err l p g h = cc
      by_task (ok task) l p g h = by_enabled task task.is_enabled l p g refl h

      by_pause :
          (r : CronScheduler C × Bool)
          → cs.is_leader ≡ true
          → pause_state cs s ≡ r
          → (unless_paused t s r).2 ≡ fired
          → MayFire t cs s
      by_pause (q, true) l p h = cc
      by_pause (q, false) l p h =
          by_task (svc.get_task t s) l (ap (λ (x : CronScheduler C × Bool). x.1) p) refl (
            subst (λ (x : CronScheduler C). (with_task x t s (svc.get_task t s)).2 ≡ fired)
              (sym (ap (λ (x : CronScheduler C × Bool). x.0) p)) h)

      by_leader :
          (b : Bool)
          → cs.is_leader ≡ b
          → (if b then unless_paused t s (pause_state cs s) else (cs, s, skipped)).2 ≡ fired
          → MayFire t cs s
      by_leader true l h = by_pause (pause_state cs s) l refl h
      by_leader false l h = cc
