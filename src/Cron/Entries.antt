-- ===== src/Cron/Entries.antt =====
-- The map of cron_scheduler.go (scheduler/internal/cron) against the table of the cron package.
use bdopsflow.Prelude.{
  ℕ, ◌≡◌, refl, Bool, true, false, List, [], ◌∷◌, ◌++◌, none, some, if◌then◌else◌, ◌==◌, arith,
}
use bdopsflow.Cron.{Entry, CronTable, entry_of, without_task}

unfoldable pub without_entry : ℕ → List Entry → List Entry
without_entry i [] = []
without_entry i (x ∷ xs) =
    let rest = without_entry i xs in if x.entry_id == i then rest else x ∷ rest

unfoldable pub has_entry : ℕ → List Entry → Bool
has_entry i [] = false
has_entry i (x ∷ xs) = let rest = has_entry i xs in if x.entry_id == i then true else rest

-- What the documentation of the cron package says: an entry that is added has a new id, Remove takes the
-- entry with the id out, and an expression that is refused adds nothing.
pub record TableLaws {C E : Type 0} (table : CronTable C E) (entries : C → List Entry)
    : Type 0 where
  pub added :
      (e : E) (t i : ℕ) (c : C)
      → (table.add_func e t c).1 ≡ some i
      → (entries (table.add_func e t c).0 ≡ entries c ++ record { task_id = t; entry_id = i } ∷ [])
        × (has_entry i (entries c) ≡ false)
  pub not_added :
      (e : E) (t : ℕ) (c : C)
      → (table.add_func e t c).1 ≡ none
      → entries (table.add_func e t c).0 ≡ entries c
  pub removed : (i : ℕ) (c : C) → entries (table.remove i c) ≡ without_entry i (entries c)
  pub started : (c : C) → entries (table.start c) ≡ entries c

-- No two entries are of one task, or have one id.
pub data IsDistinct : List Entry → Type 0 where
  nothing : IsDistinct []
  entry :
      {xs : List Entry} (x : Entry)
      → entry_of x.task_id xs ≡ none
      → has_entry x.entry_id xs ≡ false
      → IsDistinct xs
      → IsDistinct (x ∷ xs)

pub without_entry-same :
    (i : ℕ) (xs : List Entry) → has_entry i xs ≡ false → without_entry i xs ≡ xs
unfolding has_entry without_entry
without_entry-same i [] h = refl
without_entry-same i (x ∷ xs) h = ground (arith, without_entry-same i xs)

without_task-same : (t : ℕ) (xs : List Entry) → entry_of t xs ≡ none → without_task t xs ≡ xs
unfolding entry_of without_task
without_task-same t [] h = refl
without_task-same t (x ∷ xs) h = ground (arith, without_task-same t xs)

pub entry_of-has_entry :
    (t i : ℕ) (xs : List Entry) → entry_of t xs ≡ some i → has_entry i xs ≡ true
unfolding entry_of has_entry
entry_of-has_entry t i [] h = cc
entry_of-has_entry t i (x ∷ xs) h = ground (arith, entry_of-has_entry t i xs)

pub entry_of-without_task :
    (t u : ℕ) (xs : List Entry) → entry_of u xs ≡ none → entry_of u (without_task t xs) ≡ none
unfolding entry_of without_task
entry_of-without_task t u [] h = refl
entry_of-without_task t u (x ∷ xs) h = ground (arith, entry_of-without_task t u xs)

pub has_entry-without_task :
    (t i : ℕ) (xs : List Entry) → has_entry i xs ≡ false → has_entry i (without_task t xs) ≡ false
unfolding has_entry without_task
has_entry-without_task t i [] h = refl
has_entry-without_task t i (x ∷ xs) h = ground (arith, has_entry-without_task t i xs)

pub entry_of-gone : (t : ℕ) (xs : List Entry) → entry_of t (without_task t xs) ≡ none
unfolding entry_of without_task
entry_of-gone t [] = refl
entry_of-gone t (x ∷ xs) = ground (arith, entry_of-gone t xs)

pub without_task-IsDistinct :
    (t : ℕ) (xs : List Entry) → IsDistinct xs → IsDistinct (without_task t xs)
unfolding without_task
without_task-IsDistinct t _ nothing = nothing
without_task-IsDistinct t _ (entry {xs = xs} x a b d) =
    by_task (without_task-IsDistinct t xs d) (x.task_id == t)
  where
    by_task :
        IsDistinct (without_task t xs)
        → (c : Bool) → IsDistinct (if c then without_task t xs else x ∷ without_task t xs)
    by_task r true = r
    by_task r false =
        entry x (entry_of-without_task t x.task_id xs a) (has_entry-without_task t x.entry_id xs b)
          r

-- To take out the entry of a task is to take out the task.
pub without_entry-without_task :
    (t i : ℕ) (xs : List Entry)
    → IsDistinct xs
    → entry_of t xs ≡ some i
    → without_entry i xs ≡ without_task t xs
unfolding without_entry without_task entry_of
without_entry-without_task t i _ nothing h = cc
without_entry-without_task t i _ (entry {xs = xs} x a b d) h = ground (
  arith,
  without_entry-without_task t i xs d,
  without_entry-same i xs,
  without_task-same t xs,
  entry_of-has_entry t i xs,
  a,
  b,
)
