-- ===== src/Tasks/Recovery/Losses.antt =====
-- What recovery and cleanup change in the table of executions
-- (scheduler/internal/service/{execution_service,cleanup_service}.go).
use bdopsflow.Prelude.{
  ℕ, ◌≡◌, refl, sym, ◌∙◌, subst, Bool, true, false, List, [], ◌∷◌, Option, if◌then◌else◌, arith,
  ◌==◌, any,
}
use bdopsflow.Redis.{Reply, ok}
use bdopsflow.Tasks.Interface.{
  failed, Execution, del_keys, del_fail_count, add_log, start_failure, Backend, Rows, set_status,
}
use bdopsflow.Tasks.{update_execution_result}
use bdopsflow.Tasks.Control.{force_fail_task}
use bdopsflow.Tasks.Dispatch.{update_execution_result-rows}
use bdopsflow.Tasks.Recovery.{
  Found, Probe, should_fail, health, renew_found, recover_one, recover_rows, recover_running_tasks,
  recover_reply,
}
use bdopsflow.Tasks.Recovery.Dead.{
  StuckExec, dead_health, clean_one, clean_dead, clean_reply, cleanup_dead_tasks,
}

-- The second table is the first one with some of the named executions failed: no row is added, lost or
-- moved, and no other column changes.
pub data Loses (named : ℕ → Bool) : List Execution → List Execution → Type 0 where
  ends : Loses named [] []
  keeps :
      {xs ys : List Execution} (x : Execution) → Loses named xs ys → Loses named (x ∷ xs) (x ∷ ys)
  fails :
      {xs ys : List Execution} (x : Execution)
      → named x.execution_id ≡ true
      → Loses named xs ys
      → Loses named (x ∷ xs) (record x { status = failed } ∷ ys)

Loses-self : (named : ℕ → Bool) (xs : List Execution) → Loses named xs xs
Loses-self named [] = ends
Loses-self named (x ∷ xs) = keeps x (Loses-self named xs)

Loses-trans :
    {named : ℕ → Bool} {xs ys zs : List Execution}
    → Loses named xs ys
    → Loses named ys zs
    → Loses named xs zs
Loses-trans ends r = r
Loses-trans (keeps x l) (keeps _ r) = keeps x (Loses-trans l r)
Loses-trans (keeps x l) (fails _ h r) = fails x h (Loses-trans l r)
Loses-trans (fails x h l) (keeps _ r) = fails x h (Loses-trans l r)
Loses-trans (fails x h l) (fails _ _ r) = fails x h (Loses-trans l r)

Loses-mono :
    {named wider : ℕ → Bool} {xs ys : List Execution}
    → ((e : ℕ) → named e ≡ true → wider e ≡ true)
    → Loses named xs ys
    → Loses wider xs ys
Loses-mono w ends = ends
Loses-mono w (keeps x l) = keeps x (Loses-mono w l)
Loses-mono w (fails x h l) = fails x (w x.execution_id h) (Loses-mono w l)

set_status-Loses : (e : ℕ) (xs : List Execution) → Loses (λ i. i == e) xs (set_status e failed xs)
unfolding set_status
set_status-Loses e [] = ends
set_status-Loses e (x ∷ xs) = by_id (x.execution_id == e) refl (set_status-Loses e xs)
  where
    by_id :
        (c : Bool)
        → x.execution_id == e ≡ c
        → Loses (λ i. i == e) xs (set_status e failed xs)
        → Loses
            (λ i. i == e)
            (x ∷ xs)
            (if c
              then record x { status = failed } ∷ set_status e failed xs
              else x ∷ set_status e failed xs)
    by_id true h l = fails x h l
    by_id false h l = keeps x l

unfoldable pub finds : List Found → ℕ → Bool
finds fs e = any (λ f. e == f.execution_id) fs

unfoldable pub is_stuck : List StuckExec → ℕ → Bool
is_stuck xs e = any (λ x. e == x.execution_id) xs

module _ {S : Type 0} (b : Backend S) (rows : S → List Execution) (laws : Rows b rows)
    (p : Probe S) where
  pub force_fail_task-rows :
      (t e : ℕ) (s : S)
      → rows (force_fail_task b t e s) ≡ (
          if (update_execution_result b e failed s).1 then set_status e failed (rows s) else rows s)
  unfolding force_fail_task
  force_fail_task-rows t e s =
      laws.perform_rows (start_failure t e) _
      ∙ laws.perform_rows (del_keys e) _
      ∙ laws.perform_rows (add_log e t) _
      ∙ update_execution_result-rows b rows laws e failed s

  pub renew_found-rows : (f : Found) (now : ℕ) (s : S) → rows (renew_found b p f now s) ≡ rows s
  unfolding renew_found
  renew_found-rows f now s =
      laws.perform_rows (add_log f.execution_id f.task_id) _
      ∙ laws.perform_rows (del_fail_count f.execution_id) _
      ∙ laws.perform_rows _ _
      ∙ laws.perform_rows _ _

  -- The row of `e` is failed, or not where the UPDATE is not carried out.
  updated-Loses :
      (e : ℕ) (done : Bool) (xs : List Execution)
      → Loses (λ i. i == e) xs (if done then set_status e failed xs else xs)
  updated-Loses e true xs = set_status-Loses e xs
  updated-Loses e false xs = Loses-self _ xs

  recover_one-Loses :
      (now : ℕ) (f : Found) (s : S)
      → Loses (λ i. i == f.execution_id) (rows s) (rows (recover_one b p now f s))
  unfolding recover_one
  recover_one-Loses now f s = by_health (should_fail (health b p f now s))
    where
      by_health :
          (c : Bool)
          → Loses
              (λ i. i == f.execution_id)
              (rows s)
              (rows (
                if c
                then force_fail_task b f.task_id f.execution_id s
                else renew_found b p f now s))
      by_health true =
          subst (Loses _ (rows s)) (sym (force_fail_task-rows f.task_id f.execution_id s))
            (updated-Loses f.execution_id _ (rows s))
      by_health false =
          subst (Loses _ (rows s)) (sym (renew_found-rows f now s)) (Loses-self _ (rows s))

  recover_rows-Loses :
      (now : ℕ) (fs : List Found) (s : S)
      → Loses (finds fs) (rows s) (rows (recover_rows b p now fs s))
  unfolding recover_rows finds
  recover_rows-Loses now [] s = Loses-self _ (rows s)
  recover_rows-Loses now (f ∷ fs) s =
      Loses-trans (Loses-mono (λ e h. ground arith) (recover_one-Loses now f s))
        (Loses-mono (λ e h. ground arith) (recover_rows-Loses now fs (recover_one b p now f s)))

  -- A new leader fails some of the executions that its query found, and changes nothing else in the table.
  pub recover_running_tasks-Loses :
      (now : ℕ) (s : S) (fs : List Found)
      → p.running_rows s ≡ ok fs
      → Loses (finds fs) (rows s) (rows (recover_running_tasks b p now s).0)
  unfolding recover_running_tasks recover_reply
  recover_running_tasks-Loses now s fs h =
      subst (λ r. Loses (finds fs) (rows s) (rows (recover_reply b p now s r).0)) (sym h)
        (recover_rows-Loses now fs s)

  clean_one-Loses :
      (now_online : ℕ → Bool) (renewal : ℕ → Reply (Option ℕ)) (now : ℕ) (x : StuckExec) (s : S)
      → Loses (λ i. i == x.execution_id) (rows s) (rows (clean_one b p now_online renewal now x s))
  unfolding clean_one
  clean_one-Loses now_online renewal now x s =
      by_health (should_fail (dead_health b p now_online renewal now x s))
    where
      cleaned : S
      cleaned = b.perform (start_failure x.task_id x.execution_id) (
          b.perform (del_keys x.execution_id) (update_execution_result b x.execution_id failed s).0)

      cleaned-rows : rows cleaned ≡ (
          if (update_execution_result b x.execution_id failed s).1
          then set_status x.execution_id failed (rows s)
          else rows s)
      cleaned-rows =
          laws.perform_rows (start_failure x.task_id x.execution_id) _
          ∙ laws.perform_rows (del_keys x.execution_id) _
          ∙ update_execution_result-rows b rows laws x.execution_id failed s

      by_health :
          (c : Bool) → Loses (λ i. i == x.execution_id) (rows s) (rows (if c then cleaned else s))
      by_health true =
          subst (Loses _ (rows s)) (sym cleaned-rows) (updated-Loses x.execution_id _ (rows s))
      by_health false = Loses-self _ (rows s)

  clean_dead-Loses :
      (now_online : ℕ → Bool) (renewal : ℕ → Reply (Option ℕ)) (now : ℕ) (xs : List StuckExec)
      (s : S)
      → Loses (is_stuck xs) (rows s) (rows (clean_dead b p now_online renewal now xs s))
  unfolding clean_dead is_stuck
  clean_dead-Loses now_online renewal now [] s = Loses-self _ (rows s)
  clean_dead-Loses now_online renewal now (x ∷ xs) s =
      Loses-trans (Loses-mono (λ e h. ground arith) (clean_one-Loses now_online renewal now x s)) (
        Loses-mono (λ e h. ground arith)
          (clean_dead-Loses now_online renewal now xs (clean_one b p now_online renewal now x s)))

  -- The cleanup fails some of the executions that its query found stuck, and changes nothing else in the
  -- table.
  pub cleanup_dead_tasks-Loses :
      (stuck_rows : S → Reply (List StuckExec)) (now_online : S → ℕ → Bool) (now : ℕ) (s : S)
      (xs : List StuckExec)
      → stuck_rows s ≡ ok xs
      → Loses (is_stuck xs) (rows s) (rows (cleanup_dead_tasks b p stuck_rows now_online now s))
  unfolding cleanup_dead_tasks clean_reply
  cleanup_dead_tasks-Loses stuck_rows now_online now s xs h =
      subst (λ r. Loses (is_stuck xs) (rows s) (rows (clean_reply b p now_online now s r))) (sym h)
        (clean_dead-Loses (now_online s) (λ e. b.get_renew e s) now xs s)
