-- ===== src/Tests/Schedules.antt =====
-- The cron scheduler's theorems on a table that is a list, and a service that has one task.
use bdopsflow.Prelude.{
  ℕ, suc, ◌+◌, ◌≡◌, refl, subst, Bool, true, false, List, [], ◌∷◌, ◌++◌, Option, none, some, arith,
}
use bdopsflow.Redis.{ok}
use bdopsflow.Cron.{
  Entry, CronTable, CronScheduler, new_cron_scheduler, sync_paused_from_redis, is_paused,
}
use bdopsflow.Cron.Entries.{TableLaws, without_entry, has_entry}
use bdopsflow.Cron.Registration.{Registered}
use bdopsflow.Cron.Runs.{registers, becomes_leader, run, run-new-Registered}
use bdopsflow.Cron.TaskLock.{
  TaskLock, acquires, releases, run_scripts, acquire_script, run_scripts-held, Without, node_of,
}
use bdopsflow.Cron.Firing.{
  Service, fired, pause_state, acquire_task_lock, execute_task, MayFire, execute_task-MayFire,
}

-- An expression is whether it can be parsed; a new id is larger than all others.
next_id : List Entry → ℕ
next_id [] = 0
next_id (x ∷ xs) = suc (x.entry_id + next_id xs)

add : Bool → ℕ → List Entry → List Entry × Option ℕ
add false t c = (c, none)
add true t c = (c ++ record { task_id = t; entry_id = next_id c } ∷ [], some (next_id c))

abbrev cron : CronTable (List Entry) Bool
cron = record {
  add_func = add;
  remove = without_entry;
  start = λ c. c;
  parse_standard = λ e. false;
  with_seconds = λ e. e;
}

next_id-fresh : (k : ℕ) (c : List Entry) → has_entry (k + next_id c) c ≡ false
unfolding next_id has_entry
next_id-fresh k [] = refl
next_id-fresh k (x ∷ xs) = ground (arith, next_id-fresh (suc (k + x.entry_id)) xs)

cron_laws : TableLaws cron (λ c. c)
unfolding add
cron_laws = record {
  added = added;
  not_added = not_added;
  removed = λ i c. refl;
  started = λ c. refl;
}
  where
    same_id : {j k : ℕ} → ◌≡◌ {A = Option ℕ} (some j) (some k) → j ≡ k
    same_id h = cc

    added :
        (e : Bool) (t i : ℕ) (c : List Entry)
        → (add e t c).1 ≡ some i
        → ((add e t c).0 ≡ c ++ record { task_id = t; entry_id = i } ∷ []) × (has_entry i c ≡ false)
    added true t i c h =
        subst
          (λ j.
            (c ++ record { task_id = t; entry_id = next_id c } ∷ []
              ≡ c ++ record { task_id = t; entry_id = j } ∷ [])
            × (has_entry j c ≡ false))
          (same_id h) (refl, subst (λ k. has_entry k c ≡ false) (omega arith) (next_id-fresh 0 c))
    added false t i c h = absurd cc

    not_added : (e : Bool) (t : ℕ) (c : List Entry) → (add e t c).1 ≡ none → (add e t c).0 ≡ c
    not_added true t c h = absurd cc
    not_added false t c h = refl

run-new-Registered_example :
    Registered cron
      (λ c. c)
      cron_laws
      (run cron
        (λ c. c)
        cron_laws
        (becomes_leader ∷ registers 3 true ∷ registers 3 true ∷ [])
        (new_cron_scheduler [] true))
run-new-Registered_example =
    run-new-Registered cron (λ c. c) cron_laws [] true
      (becomes_leader ∷ registers 3 true ∷ registers 3 true ∷ []) refl

-- Node 1 took the lock up to second 160, and has stopped.
abbrev old_lock : TaskLock
old_lock = record { owner = 1; expire = 160 }

run_scripts-held_example :
    acquire_script 2 9060 (run_scripts (acquires 3 5000 ∷ releases 2 ∷ []) (some old_lock))
    ≡ (some old_lock, false)
unfolding Without node_of
run_scripts-held_example =
    run_scripts-held (acquires 3 5000 ∷ releases 2 ∷ []) old_lock 2 9060 others (ground arith)
  where
    others : Without 1 (acquires 3 5000 ∷ releases 2 ∷ [])
    others = (ground arith, (ground arith, tt))

-- Redis has no lock, and its script succeeds.
abbrev service : Service (Option TaskLock) Bool
service = record {
  get_task = λ t s.
      ok (record { id = t; expression = some true; is_enabled = true; timeout_seconds = 30 });
  trigger_task = λ t s. s;
  paused = λ s. ok false;
  eval = λ f t s. ((f s).0, ok (f s).1);
}

abbrev leading : CronScheduler (List Entry)
leading = record {
  cron = [];
  has_redis = true;
  task_entries = [];
  paused = true;
  is_leader = true;
  started = true;
  last_redis_sync = 0;
}

execute_task-MayFire_example : MayFire cron service 2 100 3 leading none
unfolding execute_task pause_state acquire_task_lock acquire_script sync_paused_from_redis is_paused
execute_task-MayFire_example = execute_task-MayFire cron service 2 100 3 leading none fires
  where
    fires : (execute_task cron service 2 100 3 leading none).2 ≡ fired
    fires = refl
