-- ===== src/GrpcServer/Reports.antt =====
-- What a report of a result does to the executions (scheduler/internal/grpcserver/server.go with
-- scheduler/internal/service/execution_service.go).
use bdopsflow.Prelude.{ℕ, ◌≡◌, ◌∙◌, List, if◌then◌else◌}
use bdopsflow.Tasks.Interface.{
  Status, pending, running, success, failed, timeout, skipped, Execution, notify, start_failure,
  Backend, Rows, set_status,
}
use bdopsflow.Tasks.Dispatch.{update_execution_result-rows, update_task_status_by_id-rows}
use bdopsflow.Tasks.{update_task_status_by_id, update_execution_result}
use bdopsflow.GrpcServer.{conclude, report_task_result}

module _ {S : Type 0} (b : Backend S) (rows : S → List Execution) (laws : Rows b rows) where
  succeeded :
      (t e : ℕ) (s : S)
      → rows (b.perform (notify t e success) (update_task_status_by_id b t success s)) ≡ rows s
  succeeded t e s =
      laws.perform_rows (notify t e success) _
      ∙ update_task_status_by_id-rows b rows laws t success s

  conclude-rows : (t e : ℕ) (st : Status) (s : S) → rows (conclude b t e st s) ≡ rows s
  unfolding conclude
  conclude-rows t e failed s = laws.perform_rows (start_failure t e) s
  conclude-rows t e pending s = succeeded t e s
  conclude-rows t e running s = succeeded t e s
  conclude-rows t e success s = succeeded t e s
  conclude-rows t e timeout s = succeeded t e s
  conclude-rows t e skipped s = succeeded t e s

  -- A report sets the status of the execution whatever it was: also of one that was cancelled, or that was
  -- failed because its executor did not answer, which can so become a success afterwards. Where its UPDATE
  -- is not carried out the table stays as it is.
  pub report_task_result-rows :
      (t e : ℕ) (st : Status) (s : S)
      → rows (report_task_result b t e st s)
        ≡ (if (update_execution_result b e st s).1 then set_status e st (rows s) else rows s)
  unfolding report_task_result
  report_task_result-rows t e st s =
      conclude-rows t e st _ ∙ update_execution_result-rows b rows laws e st s
