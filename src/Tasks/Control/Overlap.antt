-- ===== src/Tasks/Control/Overlap.antt =====
-- How many executions of a task run at once (TriggerTask and RetryTask in
-- scheduler/internal/service/task_service.go).
use bdopsflow.Prelude.{
  ℕ, suc, ◌≤◌, ◌≡◌, ◌≢◌, inl, inr, refl, sym, ap, subst, ◌∙◌, Bool, true, false, List, [], ◌∷◌,
  Option, none, some, if◌then◌else◌, ◌==◌, arith, Bool-cases, ==_iff,
}
use bdopsflow.Redis.{Reply, ok, err}
use bdopsflow.Tasks.Interface.{
  failed, skipped, is_running, Task, Execution, Write, done, refused, failed_write, notify, add_log,
  Backend, Rows, set_status, is_running_of,
}
use bdopsflow.Tasks.{
  already_running, Outcome, started, failed_with, dispatch_task_execution, new_execution,
  update_execution_result,
}
use bdopsflow.Tasks.Control.{
  trigger_task, retry_task, retry_dispatch, after_check, clean_stale, record_skip,
  skipped_execution, trigger_new, is_alive,
}
use bdopsflow.Tasks.Dispatch.{
  Writes, Dispatched, starts, stops, fails, strands, Accepts, dispatch_task_execution-starts,
  dispatch_task_execution-Dispatched,
}
use bdopsflow.Tasks.Control.Runs.{
  run_count, run_count-append, run_count-failed-le, run_count-failed-lt, run_count-failed-new,
  Finds, clean_stale-rows,
}

module _ {S : Type 0} (b : Backend S) (rows : S → List Execution) (laws : Rows b rows)
    (writes : Writes b) (finds : Finds b rows) where
  -- A dispatch lets at most one more execution of its own task run, and none of another.
  Dispatched-run_count :
      (t : Task) (e n u : ℕ) (old : List Execution) (r : S × Outcome)
      → Dispatched b rows laws writes t e n old r
      → run_count u (rows r.0) ≤ (if t.id == u then suc (run_count u old) else run_count u old)
  unfolding run_count is_running_of new_execution
  Dispatched-run_count t e n u old _ (starts h) =
      ground (arith, ap (run_count u) h, run_count-append u old (new_execution b t e n ∷ []))
  Dispatched-run_count t e n u old _ (stops h) = ground (arith, ap (run_count u) h)
  Dispatched-run_count t e n u old _ (fails h) =
      ground (arith, ap (run_count u) h, run_count-failed-new u (new_execution b t e n) old)
  Dispatched-run_count t e n u old _ (strands s₁ f h) =
      ground (arith, ap (run_count u) h, run_count-append u old (new_execution b t e n ∷ []))

  -- A retry does not look for a running execution: it lets one more run.
  pub retry_task-run_count :
      (has : Bool) (t e n now u : ℕ) (s : S)
      → run_count u (rows (retry_task b has t e n now s).0)
        ≤ (if t == u then suc (run_count u (rows s)) else run_count u (rows s))
  unfolding retry_task retry_dispatch
  retry_task-run_count has t e n now u s = by_task (b.get_task t s) refl
    where
      by_task :
          (r : Reply Task)
          → b.get_task t s ≡ r
          → run_count u (rows (retry_dispatch b has e n now s r).0)
            ≤ (if t == u then suc (run_count u (rows s)) else run_count u (rows s))
      by_task err h = ground arith
      by_task (ok task) h =
          subst
            (λ i.
              run_count u (rows (dispatch_task_execution b has task e n now s).0)
              ≤ (if i == u then suc (run_count u (rows s)) else run_count u (rows s)))
            (finds.finds_task t s task h)
            (Dispatched-run_count task e n u (rows s) _
              (dispatch_task_execution-Dispatched b rows laws writes has task e n now s))

  Dispatched-started :
      (t : Task) (e n x : ℕ) (old : List Execution) (r : S × Outcome)
      → Dispatched b rows laws writes t e n old r
      → r.1 ≡ started x
      → run_count t.id (rows r.0) ≡ suc (run_count t.id old)
  unfolding run_count is_running_of is_running new_execution
  Dispatched-started t e n x old _ (starts h) p =
      ground (arith, ap (run_count t.id) h, run_count-append t.id old (new_execution b t e n ∷ []))
  Dispatched-started t e n x old _ (stops h) p = cc
  Dispatched-started t e n x old _ (fails h) p = cc
  Dispatched-started t e n x old _ (strands s₁ f h) p = cc

  -- Where every step of the dispatch succeeds, a retry of a task starts and makes one more execution of
  -- it run, also where one runs already: only a trigger looks for a running execution.
  pub retry_task-overlaps :
      (t e n now : ℕ) (s : S) (task : Task)
      → b.get_task t s ≡ ok task
      → Accepts b task
      → ((retry_task b true t e n now s).1 ≡ started e)
        × (run_count t (rows (retry_task b true t e n now s).0) ≡ suc (run_count t (rows s)))
  unfolding retry_task retry_dispatch
  retry_task-overlaps t e n now s task h accepts =
      subst
        (λ r.
          ((retry_dispatch b true e n now s r).1 ≡ started e)
          × (run_count t (rows (retry_dispatch b true e n now s r).0) ≡ suc (run_count t (rows s))))
        (sym h)
        (
          begins,
          subst
              (λ i.
                run_count i (rows (dispatch_task_execution b true task e n now s).0)
                ≡ suc (run_count i (rows s)))
              (finds.finds_task t s task h)
              (Dispatched-started task e n e (rows s) _
                (dispatch_task_execution-Dispatched b rows laws writes true task e n now s) begins),
        )
    where
      begins : (dispatch_task_execution b true task e n now s).1 ≡ started e
      begins = dispatch_task_execution-starts b task accepts e n now s

  record_skip-run_count :
      (t e u : ℕ) (s : S)
      → run_count u (rows (record_skip b t e (b.insert (skipped_execution b t e) s)))
        ≡ run_count u (rows s)
  unfolding record_skip skipped_execution run_count is_running_of is_running
  record_skip-run_count t e u s = by_reply (b.insert (skipped_execution b t e) s) refl
    where
      noted :
          (s' : S) → rows (b.perform (notify t e skipped) (b.perform (add_log e t) s')) ≡ rows s'
      noted s' = laws.perform_rows (notify t e skipped) _ ∙ laws.perform_rows (add_log e t) s'

      not_done :
          {w : Write}
          → w ≢ done
          → (b.insert (skipped_execution b t e) s).1 ≡ w
          → (b.insert (skipped_execution b t e) s).1 ≢ done
      not_done n h d = n (sym h ∙ d)

      by_reply :
          (r : S × Write)
          → b.insert (skipped_execution b t e) s ≡ r
          → run_count u (rows (record_skip b t e r)) ≡ run_count u (rows s)
      by_reply (s', failed_write) h =
          ap (λ (p : S × Write). run_count u (rows p.0)) (sym h)
          ∙ ap (run_count u)
              (laws.insert_not _ s (not_done (λ p. cc) (ap (λ (p : S × Write). p.1) h)))
      by_reply (s', refused) h =
          ap (run_count u) (noted s')
          ∙ ap (λ (p : S × Write). run_count u (rows p.0)) (sym h)
          ∙ ap (run_count u)
              (laws.insert_not _ s (not_done (λ p. cc) (ap (λ (p : S × Write). p.1) h)))
      by_reply (s', done) h =
          ap (run_count u) (noted s')
          ∙ ap (λ (p : S × Write). run_count u (rows p.0)) (sym h)
          ∙ ap (run_count u) (laws.insert_done _ s (ap (λ (p : S × Write). p.1) h))
          ∙ run_count-append u (rows s) (skipped_execution b t e ∷ [])
          ∙ ground arith

  -- A trigger does not itself make two executions of a task run together: if of each task one at most is
  -- running before it, then so it is when it returns, whichever way it ends. The condition is that the
  -- query for a running execution answers, and that the UPDATE of one that it takes for stale is carried
  -- out. The retry that such a cleanup leads to runs later and is not part of the call.
  pub trigger_task-run_count :
      (is_leader has : Bool) (t skip_e e now : ℕ) (s : S)
      → b.running_execution t s ≢ err
      → ((r : ℕ)
          → b.running_execution t s ≡ ok (some r)
          → (update_execution_result b r failed s).1 ≡ true)
      → ((u : ℕ) → run_count u (rows s) ≤ 1)
      → (u : ℕ) → run_count u (rows (trigger_task b is_leader has t skip_e e now s).0) ≤ 1
  unfolding trigger_task after_check trigger_new
  trigger_task-run_count false has t skip_e e now s found cleans one u = one u
  trigger_task-run_count true has t skip_e e now s found cleans one u =
      by_check (b.running_execution t s) refl
    where
      free :
          (s' : S)
          → (t ≡ u → run_count u (rows s') ≡ 0)
          → run_count u (rows s') ≤ 1
          → run_count u (rows (retry_task b has t e 0 now s').0) ≤ 1
      free s' none_of le = elim (Bool-cases (t == u)) [
        | inl p ↦
            ground (arith, retry_task-run_count has t e 0 now u s', none_of ((==_iff t u).0 p))
        | inr p ↦ ground (arith, retry_task-run_count has t e 0 now u s', le)
      ]

      by_alive :
          (r : ℕ)
          → b.running_execution t s ≡ ok (some r)
          → (a : Bool)
          → run_count u (
              rows
                (if a
                  then (
                    record_skip b t skip_e (b.insert (skipped_execution b t skip_e) s),
                    failed_with already_running,
                  )
                  else retry_task b has t e 0 now (clean_stale b t r s)).0)
            ≤ 1
      by_alive r h true = ground (arith, record_skip-run_count t skip_e u s, one u)
      by_alive r h false =
          free (clean_stale b t r s)
            (λ p. ground (
              arith,
              cleaned,
              one u,
              subst (λ i. suc (run_count i (set_status r failed (rows s))) ≤ run_count i (rows s)) p
                  (run_count-failed-lt t r (rows s) (finds.finds_some t r s h)),
            ))
            (ground (arith, cleaned, run_count-failed-le u r (rows s), one u))
        where
          cleaned :
              run_count u (rows (clean_stale b t r s)) ≡ run_count u (set_status r failed (rows s))
          cleaned = ap (run_count u) (clean_stale-rows b rows laws t r s) ∙ rw (cleans r h) refl

      by_check :
          (r : Reply (Option ℕ))
          → b.running_execution t s ≡ r
          → run_count u (rows (after_check b has t skip_e e now s r).0) ≤ 1
      by_check err h = absurd (found h)
      by_check (ok none) h =
          free s (λ p. subst (λ i. run_count i (rows s) ≡ 0) p (finds.finds_none t s h)) (one u)
      by_check (ok (some r)) h = by_alive r h (is_alive b t r now s)
