-- ===== src/Tasks/Control/Cancel.antt =====
-- What CancelExecution of scheduler/internal/service/execution_service.go makes of the executions.
use bdopsflow.Prelude.{
  ℕ, zero, suc, ◌≡◌, ◌≢◌, refl, sym, ap, ◌∙◌, Bool, true, false, List, Option, none, some,
  if◌then◌else◌,
}
use bdopsflow.Redis.{Reply, ok, err}
use bdopsflow.Tasks.Interface.{
  failed, Executor, Execution, Write, done, refused, failed_write, add_log, cancel_signal, del_keys,
  Backend, Rows, set_status,
}
use bdopsflow.Tasks.{update_execution_result, after_update}
use bdopsflow.Tasks.Control.{
  CancelError, not_found, not_active, Cancelled, was_cancelled, not_cancelled, is_cancellable,
  signal, after_cancel, cancel_row, cancel_execution, send_signal,
}

module _ {S : Type 0} (b : Backend S) (rows : S → List Execution) (laws : Rows b rows) where
  send_signal-rows : (e : ℕ) (s : S) (r : Reply Executor) → rows (send_signal b e s r) ≡ rows s
  unfolding send_signal
  send_signal-rows e s err = refl
  send_signal-rows e s (ok x) = laws.perform_rows (cancel_signal x.id e) s

  signal-rows : (has : Bool) (x e : ℕ) (s : S) → rows (signal b has x e s) ≡ rows s
  unfolding signal
  signal-rows false x e s = refl
  signal-rows true zero e s = refl
  signal-rows true (suc k) e s = send_signal-rows e s (b.get_executor (suc k) s)

  -- What a call reports of the row it found, and what is then in the table.
  pub data Cancels (e : ℕ) (s : S) : S × Cancelled → Type 0 where
    cancels :
        {s' : S} (x : Execution) (executor_id : ℕ)
        → b.get_execution e s ≡ ok (some (x, executor_id))
        → is_cancellable x.status ≡ true
        → rows s' ≡ set_status e failed (rows s)
        → Cancels e s (s', was_cancelled)
    misses :
        {s' : S}
        → b.get_execution e s ≡ ok none
        → rows s' ≡ rows s
        → Cancels e s (s', not_cancelled not_found)
    is_over :
        {s' : S} (x : Execution) (executor_id : ℕ)
        → b.get_execution e s ≡ ok (some (x, executor_id))
        → is_cancellable x.status ≡ false
        → rows s' ≡ rows s
        → Cancels e s (s', not_cancelled not_active)
    fails : {s' : S} {w : CancelError} → rows s' ≡ rows s → Cancels e s (s', not_cancelled w)

  after_cancel-Cancels :
      (x : Execution) (executor_id e : ℕ) (s s' : S)
      → b.get_execution e s ≡ ok (some (x, executor_id))
      → is_cancellable x.status ≡ true
      → rows s' ≡ rows s
      → Cancels e s (after_cancel b x.task_id e (update_execution_result b e failed s'))
  unfolding update_execution_result after_cancel after_update
  after_cancel-Cancels x executor_id e s s' found active same =
      by_reply (b.update_status e failed s') refl
    where
      failure :
          {w : Write}
          → w ≢ done
          → (b.update_status e failed s').1 ≡ w
          → rows (b.update_status e failed s').0 ≡ rows s
      failure n h = laws.update_not e failed s' (λ d. n (sym h ∙ d)) ∙ same

      by_reply :
          (r : S × Write)
          → b.update_status e failed s' ≡ r
          → Cancels e s (after_cancel b x.task_id e (after_update b e r))
      by_reply (s2, done) h = cancels x executor_id found active (
          laws.perform_rows (add_log e x.task_id) _
          ∙ laws.perform_rows (del_keys e) s2
          ∙ ap (λ (p : S × Write). rows p.0) (sym h)
          ∙ laws.update_done e failed s' (ap (λ (p : S × Write). p.1) h)
          ∙ ap (set_status e failed) same)
      by_reply (s2, refused) h = fails (
          ap (λ (p : S × Write). rows p.0) (sym h)
          ∙ failure (λ p. cc) (ap (λ (p : S × Write). p.1) h))
      by_reply (s2, failed_write) h = fails (
          ap (λ (p : S × Write). rows p.0) (sym h)
          ∙ failure (λ p. cc) (ap (λ (p : S × Write). p.1) h))

  -- A cancellation is reported only for a row that was pending or running, and the row is failed then.
  -- Whichever error is reported, no row changes.
  pub cancel_execution-Cancels :
      (has : Bool) (e : ℕ) (s : S) → Cancels e s (cancel_execution b has e s)
  unfolding cancel_execution cancel_row
  cancel_execution-Cancels has e s = by_row (b.get_execution e s) refl
    where
      by_status :
          (x : Execution) (executor_id : ℕ)
          → b.get_execution e s ≡ ok (some (x, executor_id))
          → (a : Bool) → is_cancellable x.status ≡ a
          → Cancels e s (
              if a
              then after_cancel b x.task_id e
                  (update_execution_result b e failed (signal b has executor_id e s))
              else (s, not_cancelled not_active))
      by_status x executor_id h true p =
          after_cancel-Cancels x executor_id e s _ h p (signal-rows has executor_id e s)
      by_status x executor_id h false p = is_over x executor_id h p refl

      by_row :
          (r : Reply (Option (Execution × ℕ)))
          → b.get_execution e s ≡ r
          → Cancels e s (cancel_row b has e s r)
      by_row err h = fails refl
      by_row (ok none) h = misses h refl
      by_row (ok (some (x, executor_id))) h =
          by_status x executor_id h (is_cancellable x.status) refl
