-- ===== src/Cron/Runs.antt =====
-- The scheduler's map and the table of the cron package over any run of calls
-- (scheduler/internal/cron/cron_scheduler.go).
use bdopsflow.Prelude.{ℕ, ◌≡◌, Bool, List, [], ◌∷◌}
use bdopsflow.Redis.{Reply, ok, err}
use bdopsflow.Cron.{
  Entry, CronTable, CronScheduler, new_cron_scheduler, CronTask, unregister_task, register_task,
  on_become_leader, on_lose_leader, load_and_register_tasks, pause, resume, sync_paused_from_redis,
}
use bdopsflow.Cron.Entries.{TableLaws, nothing}
use bdopsflow.Cron.Registration.{
  Registered, unregister_task-Registered, register_task-Registered,
  load_and_register_tasks-Registered, on_lose_leader-Registered, on_become_leader-Registered,
}

module _ {C E : Type 0} (table : CronTable C E) (entries : C → List Entry)
    (laws : TableLaws table entries) where
  -- What happens to a scheduler; a synchronisation gets the reply of Redis.
  pub data Event : Type 0 where
    becomes_leader loses_leader : Event
    loads : Bool → Reply (List (Bool × CronTask E)) → Event
    registers : ℕ → E → Event
    unregisters : ℕ → Event
    pauses resumes : ℕ → Event
    syncs : ℕ → Reply Bool → Event

  unfoldable pub step : Event → CronScheduler C → CronScheduler C
  step becomes_leader cs = on_become_leader table cs
  step loses_leader cs = on_lose_leader table cs
  step (loads leads ts) cs = load_and_register_tasks table leads ts cs
  step (registers t e) cs = register_task table t e cs
  step (unregisters t) cs = unregister_task table t cs
  step (pauses now) cs = (pause table now cs).0
  step (resumes now) cs = (resume table now cs).0
  step (syncs now reply) cs = sync_paused_from_redis table now reply cs

  unfoldable pub run : List Event → CronScheduler C → CronScheduler C
  run [] cs = cs
  run (x ∷ xs) cs = run xs (step x cs)

  step-Registered :
      (x : Event) (cs : CronScheduler C)
      → Registered table entries laws cs
      → Registered table entries laws (step x cs)
  unfolding step pause resume sync_paused_from_redis
  step-Registered becomes_leader cs r = on_become_leader-Registered table entries laws cs r
  step-Registered loses_leader cs r = on_lose_leader-Registered table entries laws cs r
  step-Registered (loads leads ts) cs r =
      load_and_register_tasks-Registered table entries laws leads ts cs r
  step-Registered (registers t e) cs r = register_task-Registered table entries laws t e cs r
  step-Registered (unregisters t) cs r = unregister_task-Registered table entries laws t cs r
  step-Registered (pauses now) cs r = record { is_same = r.is_same; is_distinct = r.is_distinct }
  step-Registered (resumes now) cs r = record { is_same = r.is_same; is_distinct = r.is_distinct }
  step-Registered (syncs now err) cs r = r
  step-Registered (syncs now (ok b)) cs r = record {
    is_same = r.is_same;
    is_distinct = r.is_distinct;
  }

  run-Registered :
      (xs : List Event) (cs : CronScheduler C)
      → Registered table entries laws cs
      → Registered table entries laws (run xs cs)
  unfolding run
  run-Registered [] cs r = r
  run-Registered (x ∷ xs) cs r = run-Registered xs (step x cs) (step-Registered x cs r)

  -- From an empty table, whatever happens: the map has just the entries that the cron package has, and no
  -- task has two, so that a task is not triggered twice when it is due.
  pub run-new-Registered :
      (c : C) (has_redis : Bool) (xs : List Event)
      → entries c ≡ []
      → Registered table entries laws (run xs (new_cron_scheduler c has_redis))
  unfolding new_cron_scheduler
  run-new-Registered c has_redis xs h =
      run-Registered xs _ (record { is_same = h; is_distinct = nothing })
