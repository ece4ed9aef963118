-- ===== src/Cron.antt =====
-- scheduler/internal/cron/cron_scheduler.go: which tasks are registered with github.com/robfig/cron, and
-- what happens when one is due. The table of entries of that package, the scheduler service and Redis are
-- parameters. A map is an association list; a clock value is an argument, in seconds.
pub mod TaskLock
pub mod Entries
pub mod Registration
pub mod Runs
pub mod Firing
use bdopsflow.Prelude.{
  ℕ, zero, suc, ◌+◌, ◌-◌, Bool, true, false, not, ◌&&◌, List, [], ◌∷◌, ◌++◌, Option, none, some,
  if◌then◌else◌, ltb, ◌==◌,
}
use bdopsflow.Redis.{Reply, ok, err}

-- An entry of a task, in the scheduler's map and in the table of the cron package.
pub record Entry : Type 0 where
  pub task_id : ℕ
  pub entry_id : ℕ

-- AddFunc, Remove and ParseStandard; `with_seconds` puts `0 ` before an expression. An entry that is added
-- calls the task's function when it is due.
pub record CronTable (C E : Type 0) : Type 0 where
  pub add_func : E → (task_id : ℕ) → C → C × Option ℕ
  pub remove : (entry_id : ℕ) → C → C
  pub start : C → C
  pub parse_standard : E → Bool
  pub with_seconds : E → E

pub record CronScheduler (C : Type 0) : Type 0 where
  pub cron : C
  pub has_redis : Bool
  pub task_entries : List Entry
  pub paused : Bool
  pub is_leader : Bool
  pub started : Bool
  pub last_redis_sync : ℕ

abbrev pub sync_interval : ℕ
sync_interval = 5

unfoldable pub new_cron_scheduler : {C : Type 0} → C → Bool → CronScheduler C
new_cron_scheduler c has_redis = record {
  cron = c;
  has_redis = has_redis;
  task_entries = [];
  paused = false;
  is_leader = false;
  started = false;
  last_redis_sync = 0;
}

unfoldable pub entry_of : ℕ → List Entry → Option ℕ
entry_of t [] = none
entry_of t (x ∷ xs) = let rest = entry_of t xs in if x.task_id == t then some x.entry_id else rest

unfoldable pub without_task : ℕ → List Entry → List Entry
without_task t [] = []
without_task t (x ∷ xs) = let rest = without_task t xs in if x.task_id == t then rest else x ∷ rest

-- A task of the database, as the cron scheduler reads it.
pub record CronTask (E : Type 0) : Type 0 where
  pub id : ℕ
  pub expression : Option E
  pub is_enabled : Bool
  pub timeout_seconds : ℕ

module _ {C E : Type 0} (table : CronTable C E) where
  remove_found : ℕ → CronScheduler C → Option ℕ → CronScheduler C
  remove_found t cs none = cs
  remove_found t cs (some i) = record cs {
    cron = table.remove i cs.cron;
    task_entries = without_task t cs.task_entries;
  }

  unfoldable pub unregister_task : ℕ → CronScheduler C → CronScheduler C
  unfolding remove_found
  unregister_task t cs = remove_found t cs (entry_of t cs.task_entries)

  -- An expression with five fields is tried again with seconds.
  add_either : ℕ → E → C × Option ℕ → C × Option ℕ
  add_either t e (c, some i) = (c, some i)
  add_either t e (c, none) =
      if table.parse_standard e then table.add_func (table.with_seconds e) t c else (c, none)

  note_entry : ℕ → CronScheduler C → C × Option ℕ → CronScheduler C
  note_entry t cs (c, none) = record cs { cron = c }
  note_entry t cs (c, some i) = record cs {
    cron = c;
    task_entries = cs.task_entries ++ record { task_id = t; entry_id = i } ∷ [];
  }

  unfoldable pub register_task : ℕ → E → CronScheduler C → CronScheduler C
  unfolding add_either note_entry
  register_task t e cs =
      let q = unregister_task t cs in note_entry t q (add_either t e (table.add_func e t q.cron))

  -- The two goroutines that it starts, loading and recovery, are steps of their own.
  unfoldable pub on_become_leader : CronScheduler C → CronScheduler C
  on_become_leader cs =
      if cs.is_leader
      then cs
      else if cs.started
      then record cs { is_leader = true }
      else record cs { is_leader = true; started = true; cron = table.start cs.cron }

  remove_all : List Entry → C → C
  remove_all [] c = c
  remove_all (x ∷ xs) c = remove_all xs (table.remove x.entry_id c)

  unfoldable pub on_lose_leader : CronScheduler C → CronScheduler C
  unfolding remove_all
  on_lose_leader cs =
      if cs.is_leader
      then record cs {
        is_leader = false;
        cron = remove_all cs.task_entries cs.cron;
        task_entries = [];
      }
      else cs

  register_one : CronTask E → CronScheduler C → CronScheduler C
  register_one t cs = elim t.expression [
    | none ↦ cs
    | some e ↦ if t.is_enabled then register_task t.id e cs else cs
  ]

  -- Before each task the service says whether it still leads.
  unfoldable pub load_tasks : List (Bool × CronTask E) → CronScheduler C → CronScheduler C
  unfolding register_one
  load_tasks [] cs = cs
  load_tasks ((leads, t) ∷ ts) cs =
      let rest = load_tasks ts (register_one t cs) in if leads then rest else cs

  unfoldable pub load_and_register_tasks :
      Bool → Reply (List (Bool × CronTask E)) → CronScheduler C → CronScheduler C
  load_and_register_tasks false tasks cs = cs
  load_and_register_tasks true err cs = cs
  load_and_register_tasks true (ok ts) cs = load_tasks ts cs

  -- The option is what is written to `scheduler:paused` in Redis.
  unfoldable pub pause : ℕ → CronScheduler C → CronScheduler C × Option Bool
  pause now cs = (
    record cs { paused = true; last_redis_sync = now },
    (if cs.has_redis then some true else none),
  )

  unfoldable pub resume : ℕ → CronScheduler C → CronScheduler C × Option Bool
  resume now cs = (
    record cs { paused = false; last_redis_sync = now },
    (if cs.has_redis then some false else none),
  )

  -- The reply is what Redis says of `scheduler:paused`.
  unfoldable pub sync_paused_from_redis : ℕ → Reply Bool → CronScheduler C → CronScheduler C
  sync_paused_from_redis now err cs = cs
  sync_paused_from_redis now (ok paused) cs = record cs { paused = paused; last_redis_sync = now }

  -- `Start` waits for the leadership, and takes over that the scheduler is paused.
  unfoldable pub start_paused : Reply Bool → CronScheduler C → CronScheduler C
  start_paused err cs = cs
  start_paused (ok paused) cs = if cs.has_redis && paused then record cs { paused = true } else cs

  unfoldable pub is_paused : ℕ → Reply Bool → CronScheduler C → CronScheduler C × Bool
  is_paused now reply cs =
      let q =
        if cs.has_redis && ltb sync_interval (now - cs.last_redis_sync)
        then sync_paused_from_redis now reply cs
        else cs in
      (q, q.paused)
