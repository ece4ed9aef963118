-- ===== src/Cron/Registration.antt =====
-- The scheduler's map and the table of the cron package after each call
-- (scheduler/internal/cron/cron_scheduler.go).
use bdopsflow.Prelude.{
  ℕ, ◌≡◌, refl, ap, ◌∙◌, subst, Bool, true, false, List, [], ◌∷◌, ◌++◌, Option, none, some,
  if◌then◌else◌, ◌==◌, arith,
}
use bdopsflow.Redis.{Reply, ok, err}
use bdopsflow.Cron.{
  Entry, CronTable, CronScheduler, entry_of, CronTask, remove_found, unregister_task, add_either,
  note_entry, register_task, on_become_leader, remove_all, on_lose_leader, register_one, load_tasks,
  load_and_register_tasks,
}
use bdopsflow.Cron.Entries.{
  TableLaws, without_entry, has_entry, IsDistinct, nothing, entry, without_entry-same,
  entry_of-gone, without_task-IsDistinct, without_entry-without_task,
}

entry_of-append :
    (u : ℕ) (xs : List Entry) (x : Entry)
    → entry_of u xs ≡ none
    → (x.task_id == u) ≡ false
    → entry_of u (xs ++ x ∷ []) ≡ none
unfolding entry_of
entry_of-append u [] x h n = ground (arith, n)
entry_of-append u (y ∷ xs) x h n = ground (arith, entry_of-append u xs x, n)

has_entry-append :
    (i : ℕ) (xs : List Entry) (x : Entry)
    → has_entry i xs ≡ false
    → (x.entry_id == i) ≡ false
    → has_entry i (xs ++ x ∷ []) ≡ false
unfolding has_entry
has_entry-append i [] x h n = ground (arith, n)
has_entry-append i (y ∷ xs) x h n = ground (arith, has_entry-append i xs x, n)

append-IsDistinct :
    (xs : List Entry) (x : Entry)
    → IsDistinct xs
    → entry_of x.task_id xs ≡ none
    → has_entry x.entry_id xs ≡ false
    → IsDistinct (xs ++ x ∷ [])
unfolding entry_of has_entry
append-IsDistinct _ x nothing a b = entry x refl refl nothing
append-IsDistinct _ x (entry {xs = xs} y c d e) a b =
    entry y (entry_of-append y.task_id xs x c (ground (arith, a)))
      (has_entry-append y.entry_id xs x d (ground (arith, b)))
      (append-IsDistinct xs x e (ground (arith, a)) (ground (arith, b)))

module _ {C E : Type 0} (table : CronTable C E) (entries : C → List Entry)
    (laws : TableLaws table entries) where
  -- The map has just the entries of the table, and none of two tasks or ids twice.
  pub record Registered (cs : CronScheduler C) : Type 0 where
    pub is_same : entries cs.cron ≡ cs.task_entries
    pub is_distinct : IsDistinct cs.task_entries

  pub unregister_task-Registered :
      (t : ℕ) (cs : CronScheduler C) → Registered cs → Registered (unregister_task table t cs)
  unfolding unregister_task remove_found
  unregister_task-Registered t cs r = by_entry (entry_of t cs.task_entries) refl
    where
      by_entry :
          (o : Option ℕ) → entry_of t cs.task_entries ≡ o → Registered (remove_found table t cs o)
      by_entry none h = r
      by_entry (some i) h = record {
        is_same =
            laws.removed i cs.cron
            ∙ ap (without_entry i) r.is_same
            ∙ without_entry-without_task t i cs.task_entries r.is_distinct h;
        is_distinct = without_task-IsDistinct t cs.task_entries r.is_distinct;
      }

  unregister_task-gone :
      (t : ℕ) (cs : CronScheduler C) → entry_of t (unregister_task table t cs).task_entries ≡ none
  unfolding unregister_task remove_found
  unregister_task-gone t cs = by_entry (entry_of t cs.task_entries) refl
    where
      by_entry :
          (o : Option ℕ)
          → entry_of t cs.task_entries ≡ o
          → entry_of t (remove_found table t cs o).task_entries ≡ none
      by_entry none h = h
      by_entry (some i) h = entry_of-gone t cs.task_entries

  -- What an attempt to add makes of the table.
  record Adds (t : ℕ) (old : List Entry) (r : C × Option ℕ) : Type 0 where
    adds :
        (i : ℕ)
        → r.1 ≡ some i
        → (entries r.0 ≡ old ++ record { task_id = t; entry_id = i } ∷ [])
          × (has_entry i old ≡ false)
    keeps : r.1 ≡ none → entries r.0 ≡ old

  add_func-Adds : (e : E) (t : ℕ) (c : C) → Adds t (entries c) (table.add_func e t c)
  add_func-Adds e t c = record {
    adds = λ i h. laws.added e t i c h;
    keeps = λ h. laws.not_added e t c h;
  }

  add_either-Adds :
      (t : ℕ) (e : E) (old : List Entry) (r : C × Option ℕ)
      → Adds t old r
      → Adds t old (add_either table t e r)
  unfolding add_either
  add_either-Adds t e old (c, some i) a = a
  add_either-Adds t e old (c, none) a = by_parse (table.parse_standard e)
    where
      by_parse :
          (b : Bool)
          → Adds t old (if b then table.add_func (table.with_seconds e) t c else (c, none))
      by_parse true =
          subst (λ l. Adds t l (table.add_func (table.with_seconds e) t c)) (a.keeps refl)
            (add_func-Adds (table.with_seconds e) t c)
      by_parse false = a

  note_entry-Registered :
      (t : ℕ) (cs : CronScheduler C) (r : C × Option ℕ)
      → IsDistinct cs.task_entries
      → entry_of t cs.task_entries ≡ none
      → Adds t cs.task_entries r
      → Registered (note_entry table t cs r)
  unfolding note_entry
  note_entry-Registered t cs (c, none) d n a = record { is_same = a.keeps refl; is_distinct = d }
  note_entry-Registered t cs (c, some i) d n a = record {
    is_same = (a.adds i refl).0;
    is_distinct = append-IsDistinct cs.task_entries _ d n (a.adds i refl).1;
  }

  pub register_task-Registered :
      (t : ℕ) (e : E) (cs : CronScheduler C)
      → Registered cs
      → Registered (register_task table t e cs)
  unfolding register_task
  register_task-Registered t e cs r =
      note_entry-Registered t q (add_either table t e added) r'.is_distinct
        (unregister_task-gone t cs)
        (add_either-Adds t e q.task_entries added
          (subst (λ l. Adds t l added) r'.is_same (add_func-Adds e t q.cron)))
    where
      q : CronScheduler C
      q = unregister_task table t cs

      added : C × Option ℕ
      added = table.add_func e t q.cron

      r' : Registered q
      r' = unregister_task-Registered t cs r

  register_one-Registered :
      (t : CronTask E) (cs : CronScheduler C) → Registered cs → Registered (register_one table t cs)
  unfolding register_one
  register_one-Registered t cs r = by_expression t.expression
    where
      by_enabled : (e : E) (b : Bool) → Registered (if b then register_task table t.id e cs else cs)
      by_enabled e true = register_task-Registered t.id e cs r
      by_enabled e false = r

      by_expression :
          (o : Option E)
          → Registered (elim o [
            | none ↦ cs
            | some e ↦ if t.is_enabled then register_task table t.id e cs else cs
          ])
      by_expression none = r
      by_expression (some e) = by_enabled e t.is_enabled

  load_tasks-Registered :
      (ts : List (Bool × CronTask E)) (cs : CronScheduler C)
      → Registered cs
      → Registered (load_tasks table ts cs)
  unfolding load_tasks
  load_tasks-Registered [] cs r = r
  load_tasks-Registered ((true, t) ∷ ts) cs r =
      load_tasks-Registered ts _ (register_one-Registered t cs r)
  load_tasks-Registered ((false, t) ∷ ts) cs r = r

  pub load_and_register_tasks-Registered :
      (leads : Bool) (ts : Reply (List (Bool × CronTask E))) (cs : CronScheduler C)
      → Registered cs
      → Registered (load_and_register_tasks table leads ts cs)
  unfolding load_and_register_tasks
  load_and_register_tasks-Registered false ts cs r = r
  load_and_register_tasks-Registered true err cs r = r
  load_and_register_tasks-Registered true (ok ts) cs r = load_tasks-Registered ts cs r

  remove_all-empties :
      (xs : List Entry) (c : C)
      → entries c ≡ xs
      → IsDistinct xs
      → entries (remove_all table xs c) ≡ []
  unfolding remove_all without_entry
  remove_all-empties _ c h nothing = h
  remove_all-empties _ c h (entry {xs = xs} x a b d) =
      remove_all-empties xs (table.remove x.entry_id c)
        (laws.removed x.entry_id c
          ∙ ap (without_entry x.entry_id) h
          ∙ ground (arith, without_entry-same x.entry_id xs b))
        d

  pub on_lose_leader-Registered :
      (cs : CronScheduler C) → Registered cs → Registered (on_lose_leader table cs)
  unfolding on_lose_leader
  on_lose_leader-Registered cs r = by_leader cs.is_leader
    where
      lost : CronScheduler C
      lost = record cs {
        is_leader = false;
        cron = remove_all table cs.task_entries cs.cron;
        task_entries = [];
      }

      by_leader : (b : Bool) → Registered (if b then lost else cs)
      by_leader true = record {
        is_same = remove_all-empties cs.task_entries cs.cron r.is_same r.is_distinct;
        is_distinct = nothing;
      }
      by_leader false = r

  pub on_become_leader-Registered :
      (cs : CronScheduler C) → Registered cs → Registered (on_become_leader table cs)
  unfolding on_become_leader
  on_become_leader-Registered cs r = by_flags cs.is_leader cs.started
    where
      by_flags :
          (b s : Bool)
          → Registered (
              if b
              then cs
              else if s
              then record cs { is_leader = true }
              else record cs { is_leader = true; started = true; cron = table.start cs.cron })
      by_flags true s = r
      by_flags false true = record { is_same = r.is_same; is_distinct = r.is_distinct }
      by_flags false false = record {
        is_same = laws.started cs.cron ∙ r.is_same;
        is_distinct = r.is_distinct;
      }
