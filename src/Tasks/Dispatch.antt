-- ===== src/Tasks/Dispatch.antt =====
-- What a dispatch leaves in the table of executions
-- (dispatchTaskExecution in scheduler/internal/service/task_service.go).
use bdopsflow.Prelude.{
  ℕ, ◌≡◌, ◌≢◌, refl, sym, ap, ◌∙◌, Bool, true, false, List, [], ◌∷◌, ◌++◌, Option, none, some,
  if◌then◌else◌, arith, Bool-cases, inl, inr,
}
use bdopsflow.Redis.{Reply, ok, err}
use bdopsflow.Tasks.Interface.{
  Status, failed, Task, Executor, Execution, Write, done, refused, failed_write, del_lock, notify,
  add_log, set_task_status, touch_task, set_executor, set_renew, del_keys, Backend, Rows,
  set_status,
}
use bdopsflow.Tasks.{
  TaskError, Outcome, started, failed_with, update_execution_result, update_task_status_by_id,
  after_update, fail_dispatch, dispatch_task_execution, to_executor, after_dispatch, after_insert,
  after_lock, unlock_if, new_execution, choose_executor, lock_ttl, renew_ttl,
}

-- An INSERT that a statement error refuses fails as a call too, as gorqlite documents of a write.
pub record Writes {S : Type 0} (b : Backend S) : Type 0 where
  pub inserts : (x : Execution) (s : S) → (b.insert x s).1 ≢ refused

module _ {S : Type 0} (b : Backend S) (rows : S → List Execution) (laws : Rows b rows) where
  -- An UPDATE sets the status of the row, or leaves the table as it is where it is not carried out.
  pub update_execution_result-rows :
      (e : ℕ) (st : Status) (s : S)
      → rows (update_execution_result b e st s).0
        ≡ (if (update_execution_result b e st s).1 then set_status e st (rows s) else rows s)
  unfolding update_execution_result
  update_execution_result-rows e st s = by_reply (b.update_status e st s) refl
    where
      kept :
          {w : Write}
          → w ≢ done
          → (b.update_status e st s).1 ≡ w
          → rows (b.update_status e st s).0 ≡ rows s
      kept n h = laws.update_not e st s (λ d. n (sym h ∙ d))

      by_reply :
          (r : S × Write)
          → b.update_status e st s ≡ r
          → rows (after_update b e r).0
            ≡ (if (after_update b e r).1 then set_status e st (rows s) else rows s)
      by_reply (s', done) h =
          laws.perform_rows (del_keys e) s'
          ∙ ap (λ (p : S × Write). rows p.0) (sym h)
          ∙ laws.update_done e st s (ap (λ (p : S × Write). p.1) h)
      by_reply (s', refused) h =
          ap (λ (p : S × Write). rows p.0) (sym h) ∙ kept (λ q. cc) (ap (λ (p : S × Write). p.1) h)
      by_reply (s', failed_write) h =
          ap (λ (p : S × Write). rows p.0) (sym h) ∙ kept (λ q. cc) (ap (λ (p : S × Write). p.1) h)

  pub update_task_status_by_id-rows :
      (t : ℕ) (st : Status) (s : S) → rows (update_task_status_by_id b t st s) ≡ rows s
  unfolding update_task_status_by_id
  update_task_status_by_id-rows t st s =
      ground (arith, laws.perform_rows (touch_task t) s, laws.perform_rows (set_task_status t st) s)

  fail_dispatch-rows :
      (t e : ℕ) (s : S)
      → rows (fail_dispatch b t e s) ≡ (
          if (update_execution_result b e failed s).1 then set_status e failed (rows s) else rows s)
  unfolding fail_dispatch
  fail_dispatch-rows t e s =
      laws.perform_rows (del_lock e) _
      ∙ laws.perform_rows (notify t e failed) _
      ∙ laws.perform_rows (add_log e t) _
      ∙ update_task_status_by_id-rows t failed (update_execution_result b e failed s).0
      ∙ update_execution_result-rows e failed s

module _ {S : Type 0} (b : Backend S) (rows : S → List Execution) (laws : Rows b rows)
    (writes : Writes b) where
  -- What a dispatch makes of the rows: it starts and leaves the new row running, or it fails and
  -- leaves the rows as they were, or with the new row failed; where the UPDATE that fails the new row is
  -- not carried out, the row stays as it is.
  pub data Dispatched (t : Task) (e retry_times : ℕ) (old : List Execution)
      : S × Outcome → Type 0 where
    starts :
        {s : S}
        → rows s ≡ old ++ new_execution b t e retry_times ∷ []
        → Dispatched t e retry_times old (s, started e)
    stops :
        {s : S} {x : TaskError} → rows s ≡ old → Dispatched t e retry_times old (s, failed_with x)
    fails :
        {s : S} {x : TaskError}
        → rows s ≡ set_status e failed (old ++ new_execution b t e retry_times ∷ [])
        → Dispatched t e retry_times old (s, failed_with x)
    strands :
        {s : S} {x : TaskError} (s₁ : S)
        → (update_execution_result b e failed s₁).1 ≡ false
        → rows s ≡ old ++ new_execution b t e retry_times ∷ []
        → Dispatched t e retry_times old (s, failed_with x)

  module _ (t : Task) (e retry_times now : ℕ) (old : List Execution) where
    abbrev with_new : List Execution
    with_new = old ++ new_execution b t e retry_times ∷ []

    failing :
        (x : TaskError) (s : S)
        → rows s ≡ with_new
        → Dispatched t e retry_times old (fail_dispatch b t.id e s, failed_with x)
    failing x s h = elim (Bool-cases (update_execution_result b e failed s).1) [
      | inl p ↦ fails (fail_dispatch-rows b rows laws t.id e s ∙ rw p (ap (set_status e failed) h))
      | inr p ↦ strands s p (fail_dispatch-rows b rows laws t.id e s ∙ rw p h)
    ]

    after_dispatch-Dispatched :
        (r : S × Reply (Unit {0}))
        → rows r.0 ≡ with_new
        → Dispatched t e retry_times old (after_dispatch b t e now r)
    unfolding after_dispatch
    after_dispatch-Dispatched (s, err) h = failing _ s h
    after_dispatch-Dispatched (s, ok u) h = starts (
        laws.perform_rows (set_renew e now (renew_ttl (lock_ttl t.timeout_seconds))) _
        ∙ laws.perform_rows (add_log e t.id) s
        ∙ h)

    to_executor-Dispatched :
        (has : Bool) (s : S) (x : Option Executor)
        → rows s ≡ with_new
        → Dispatched t e retry_times old (to_executor b has t e now s x)
    unfolding to_executor
    to_executor-Dispatched has s none h = failing _ s h
    to_executor-Dispatched false s (some x) h = failing _ s h
    to_executor-Dispatched true s (some x) h =
        after_dispatch-Dispatched (b.dispatch x t e (b.perform (set_executor e x.id) s))
          (laws.dispatch_rows x t e _ ∙ laws.perform_rows (set_executor e x.id) s ∙ h)

    after_insert-Dispatched :
        (has lock_set : Bool) (s : S) (r : S × Write)
        → rows s ≡ old
        → b.insert (new_execution b t e retry_times) s ≡ r
        → Dispatched t e retry_times old (after_insert b has lock_set t e now r)
    unfolding after_insert unlock_if
    after_insert-Dispatched has lock_set s (s', done) h i =
        to_executor-Dispatched has s' (choose_executor b t s') (
          ap (λ (p : S × Write). rows p.0) (sym i)
          ∙ laws.insert_done (new_execution b t e retry_times) s (ap (λ (p : S × Write). p.1) i)
          ∙ ap (λ xs. xs ++ new_execution b t e retry_times ∷ []) h)
    after_insert-Dispatched has lock_set s (s', refused) h i =
        absurd (writes.inserts (new_execution b t e retry_times) s (ap (λ (p : S × Write). p.1) i))
    after_insert-Dispatched has lock_set s (s', failed_write) h i = stops (unlocked lock_set ∙ kept)
      where
        kept : rows s' ≡ old
        kept =
            ap (λ (p : S × Write). rows p.0) (sym i)
            ∙ laws.insert_not (new_execution b t e retry_times) s
                (λ d. not_done (sym (ap (λ (p : S × Write). p.1) i) ∙ d))
            ∙ h
          where
            not_done : failed_write ≢ done
            not_done p = cc

        unlocked : (l : Bool) → rows (if l then b.perform (del_lock e) s' else s') ≡ rows s'
        unlocked true = laws.perform_rows (del_lock e) s'
        unlocked false = refl

    after_lock-Dispatched :
        (has : Bool) (r : S × Reply Bool)
        → rows r.0 ≡ old
        → Dispatched t e retry_times old (after_lock b has t e retry_times now r)
    unfolding after_lock
    after_lock-Dispatched has (s, ok false) h = stops h
    after_lock-Dispatched has (s, ok true) h = after_insert-Dispatched has true s _ h refl
    after_lock-Dispatched has (s, err) h = after_insert-Dispatched has false s _ h refl

  pub dispatch_task_execution-Dispatched :
      (has : Bool) (t : Task) (e retry_times now : ℕ) (s : S)
      → Dispatched t e retry_times (rows s) (dispatch_task_execution b has t e retry_times now s)
  unfolding dispatch_task_execution
  dispatch_task_execution-Dispatched has t e retry_times now s =
      after_lock-Dispatched t e retry_times now (rows s) has
        (b.lock_nx e (lock_ttl t.timeout_seconds) s)
        (laws.lock_nx_rows e (lock_ttl t.timeout_seconds) s)

-- Every step of a dispatch of the task succeeds.
pub record Accepts {S : Type 0} (b : Backend S) (t : Task) : Type 0 where
  pub locks : (e ttl : ℕ) (s : S) → (b.lock_nx e ttl s).1 ≡ ok true
  pub inserted : (x : Execution) (s : S) → (b.insert x s).1 ≡ done
  pub chosen : (s : S) → choose_executor b t s ≢ none
  pub sent : (x : Executor) (e : ℕ) (s : S) → (b.dispatch x t e s).1 ≡ ok tt

module _ {S : Type 0} (b : Backend S) (t : Task) (accepts : Accepts b t) where
  after_dispatch-starts :
      (e now : ℕ) (r : S × Reply (Unit {0}))
      → r.1 ≡ ok tt
      → (after_dispatch b t e now r).1 ≡ started e
  unfolding after_dispatch
  after_dispatch-starts e now (s, err) h = cc
  after_dispatch-starts e now (s, ok u) h = refl

  to_executor-starts :
      (e now : ℕ) (s : S) (x : Option Executor)
      → x ≢ none
      → (to_executor b true t e now s x).1 ≡ started e
  unfolding to_executor
  to_executor-starts e now s none n = absurd (n refl)
  to_executor-starts e now s (some x) n = after_dispatch-starts e now _ (accepts.sent x e _)

  after_insert-starts :
      (lock_set : Bool) (e now : ℕ) (r : S × Write)
      → r.1 ≡ done
      → (after_insert b true lock_set t e now r).1 ≡ started e
  unfolding after_insert
  after_insert-starts lock_set e now (s, done) h = to_executor-starts e now s _ (accepts.chosen s)
  after_insert-starts lock_set e now (s, refused) h = cc
  after_insert-starts lock_set e now (s, failed_write) h = cc

  after_lock-starts :
      (e n now : ℕ) (r : S × Reply Bool)
      → r.1 ≡ ok true
      → (after_lock b true t e n now r).1 ≡ started e
  unfolding after_lock
  after_lock-starts e n now (s, err) h = cc
  after_lock-starts e n now (s, ok false) h = cc
  after_lock-starts e n now (s, ok true) h = after_insert-starts true e now _ (accepts.inserted _ s)

  pub dispatch_task_execution-starts :
      (e n now : ℕ) (s : S) → (dispatch_task_execution b true t e n now s).1 ≡ started e
  unfolding dispatch_task_execution
  dispatch_task_execution-starts e n now s = after_lock-starts e n now _ (accepts.locks e _ s)
