-- ===== src/GrpcServer.antt =====
-- scheduler/internal/grpcserver/server.go: what the scheduler tells the executors in its replies to their
-- heartbeats, and what a report of a result does. Names of executors and ids are numbers, and 0 is the
-- empty name; a map is a function. Each part of a call that holds the lock is a step; the database is the
-- backend of `Tasks`, and the calls of the service whose effects are not modelled there are left out.
pub mod Cancellations
pub mod Reports
use bdopsflow.Prelude.{
  ℕ, zero, suc, Bool, true, false, ◌&&◌, ◌||◌, List, [], ◌∷◌, ◌++◌, Option, none, some,
  if◌then◌else◌, ◌==◌, any, not,
}
use bdopsflow.Redis.{Reply, ok, err}
use bdopsflow.Tasks.Interface.{
  Status, pending, running, success, failed, timeout, skipped, notify, start_failure, Backend,
}
use bdopsflow.Tasks.{update_execution_result, update_task_status_by_id}

pub record Server : Type 0 where
  pub executors : List ℕ
  pub need_exec_sync : ℕ → Bool
  pub cancel_exec_ids : ℕ → List ℕ
  pub is_new_leader : Bool
  pub is_leader : Bool
  pub node_id : ℕ

abbrev pub set_at : {A : Type 0} → ℕ → A → (ℕ → A) → ℕ → A
set_at i a f j = if j == i then a else f j

pub record HeartbeatResponse : Type 0 where
  pub need_full_sync : Bool
  pub scheduler_node_id : ℕ
  pub response_new_leader : Bool
  pub response_leader : Bool
  pub cancel_execution_ids : List ℕ

unfoldable pub add_cancel_execution_id : ℕ → ℕ → Server → Server
add_cancel_execution_id name e s = record s {
  cancel_exec_ids = set_at name (s.cancel_exec_ids name ++ e ∷ []) s.cancel_exec_ids;
}

-- The part of `Heartbeat` that holds the lock; the ids are handed over and forgotten.
unfoldable pub heartbeat : ℕ → Bool → Server → Server × HeartbeatResponse
heartbeat zero is_reconnect s = (
  s,
  record {
    need_full_sync = false;
    scheduler_node_id = s.node_id;
    response_new_leader = false;
    response_leader = s.is_leader;
    cancel_execution_ids = [];
  },
)
heartbeat (suc k) is_reconnect s =
    let name = suc k in
    let needs = s.need_exec_sync name in
    (
      record s {
        cancel_exec_ids = set_at name [] s.cancel_exec_ids;
        need_exec_sync = (if needs then set_at name false s.need_exec_sync else s.need_exec_sync);
      },
      record {
        need_full_sync = needs || (is_reconnect && s.is_new_leader);
        scheduler_node_id = s.node_id;
        response_new_leader = s.is_new_leader;
        response_leader = s.is_leader;
        cancel_execution_ids = s.cancel_exec_ids name;
      },
    )

unfoldable pub sync_running_tasks : ℕ → Server → Server
sync_running_tasks name s = record s { need_exec_sync = set_at name true s.need_exec_sync }

-- The goroutine that ends the time as a new leader is `end_new_leader`.
unfoldable pub mark_as_new_leader : Server → Server
mark_as_new_leader s = record s {
  is_new_leader = true;
  is_leader = true;
  need_exec_sync = λ i. any (λ x. x == i) s.executors || s.need_exec_sync i;
}

unfoldable pub end_new_leader : Server → Server
end_new_leader s = record s { is_new_leader = false }

unfoldable pub set_leader : Bool → Server → Server
set_leader b s = record s { is_leader = b }

without_name : ℕ → List ℕ → List ℕ
without_name x [] = []
without_name x (y ∷ ys) = let rest = without_name x ys in if y == x then rest else y ∷ rest

unfoldable pub subscribe : ℕ → Server → Server
unfolding without_name
subscribe x s = record s { executors = x ∷ without_name x s.executors }

unfoldable pub disconnect : ℕ → Server → Server
unfolding without_name
disconnect x s = record s { executors = without_name x s.executors }

-- A result that is not `failed` counts as a success of the task; `HandleTaskFailure` runs beside the call.
module _ {S : Type 0} (b : Backend S) where
  pub conclude : ℕ → ℕ → Status → S → S
  conclude t e failed s = b.perform (start_failure t e) s
  conclude t e pending s = b.perform (notify t e success) (update_task_status_by_id b t success s)
  conclude t e running s = b.perform (notify t e success) (update_task_status_by_id b t success s)
  conclude t e success s = b.perform (notify t e success) (update_task_status_by_id b t success s)
  conclude t e timeout s = b.perform (notify t e success) (update_task_status_by_id b t success s)
  conclude t e skipped s = b.perform (notify t e success) (update_task_status_by_id b t success s)

  unfoldable pub report_task_result : ℕ → ℕ → Status → S → S
  unfolding conclude
  report_task_result t e st s = conclude t e st (update_execution_result b e st s).0
