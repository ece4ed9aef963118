-- ===== src/GrpcServer/Cancellations.antt =====
-- Whether the executors hear of the executions that are cancelled
-- (scheduler/internal/grpcserver/server.go).
use bdopsflow.Prelude.{
  ℕ, zero, suc, ◌≡◌, refl, sym, ap, ◌∙◌, Bool, List, [], ◌∷◌, ◌++◌, if◌then◌else◌, ◌==◌, arith,
}
use bdopsflow.GrpcServer.{
  Server, add_cancel_execution_id, heartbeat, sync_running_tasks, mark_as_new_leader,
  end_new_leader, set_leader, subscribe, disconnect,
}

pub data Call : Type 0 where
  cancels : (executor execution_id : ℕ) → Call
  beats : (executor : ℕ) → Bool → Call
  syncs subscribes disconnects : ℕ → Call
  becomes_new_leader ends_new_leader : Call
  leads : Bool → Call

unfoldable pub step : Call → Server → Server
step (cancels x e) s = add_cancel_execution_id x e s
step (beats x r) s = (heartbeat x r s).0
step (syncs x) s = sync_running_tasks x s
step (subscribes x) s = subscribe x s
step (disconnects x) s = disconnect x s
step becomes_new_leader s = mark_as_new_leader s
step ends_new_leader s = end_new_leader s
step (leads b) s = set_leader b s

unfoldable pub run : List Call → Server → Server
run [] s = s
run (c ∷ cs) s = run cs (step c s)

-- What one call hands to the executor, and what it asks to cancel on it.
unfoldable pub handed : ℕ → Call → Server → List ℕ
handed x (beats y r) s = if y == x then (heartbeat y r s).1.cancel_execution_ids else []
handed x (cancels y e) s = []
handed x (syncs y) s = []
handed x (subscribes y) s = []
handed x (disconnects y) s = []
handed x becomes_new_leader s = []
handed x ends_new_leader s = []
handed x (leads b) s = []

unfoldable pub asked : ℕ → Call → List ℕ
asked x (cancels y e) = if y == x then e ∷ [] else []
asked x (beats y r) = []
asked x (syncs y) = []
asked x (subscribes y) = []
asked x (disconnects y) = []
asked x becomes_new_leader = []
asked x ends_new_leader = []
asked x (leads b) = []

unfoldable pub all_handed : ℕ → List Call → Server → List ℕ
all_handed x [] s = []
all_handed x (c ∷ cs) s = handed x c s ++ all_handed x cs (step c s)

unfoldable pub all_asked : ℕ → List Call → List ℕ
all_asked x [] = []
all_asked x (c ∷ cs) = asked x c ++ all_asked x cs

append_nil : (xs : List ℕ) → xs ++ [] ≡ xs
append_nil [] = refl
append_nil (x ∷ xs) = ap (λ ys. x ∷ ys) (append_nil xs)

append_assoc : (xs ys zs : List ℕ) → (xs ++ ys) ++ zs ≡ xs ++ (ys ++ zs)
append_assoc [] ys zs = refl
append_assoc (x ∷ xs) ys zs = ap (λ l. x ∷ l) (append_assoc xs ys zs)

add_cancels :
    (x y e : ℕ) (s : Server)
    → (add_cancel_execution_id y e s).cancel_exec_ids x
      ≡ s.cancel_exec_ids x ++ asked x (cancels y e)
unfolding add_cancel_execution_id asked
add_cancels x y e s = ground (arith, append_nil (s.cancel_exec_ids x))

beat_cancels :
    (k y : ℕ) (r : Bool) (s : Server)
    → handed (suc k) (beats y r) s ++ (heartbeat y r s).0.cancel_exec_ids (suc k)
      ≡ s.cancel_exec_ids (suc k)
unfolding handed heartbeat
beat_cancels k zero r s = ground arith
beat_cancels k (suc j) r s = ground (arith, append_nil (s.cancel_exec_ids (suc k)))

step-cancels :
    (k : ℕ) (c : Call) (s : Server)
    → handed (suc k) c s ++ (step c s).cancel_exec_ids (suc k)
      ≡ s.cancel_exec_ids (suc k) ++ asked (suc k) c
unfolding step handed asked sync_running_tasks subscribe disconnect mark_as_new_leader
    end_new_leader set_leader
step-cancels k (cancels y e) s = add_cancels (suc k) y e s
step-cancels k (beats y r) s = beat_cancels k y r s ∙ sym (append_nil _)
step-cancels k (syncs y) s = sym (append_nil _)
step-cancels k (subscribes y) s = sym (append_nil _)
step-cancels k (disconnects y) s = sym (append_nil _)
step-cancels k becomes_new_leader s = sym (append_nil _)
step-cancels k ends_new_leader s = sym (append_nil _)
step-cancels k (leads b) s = sym (append_nil _)

-- Over any run of calls the ids that an executor gets with its heartbeats, and then those that wait for it,
-- are those that waited at first and then those that were asked for, in order: the server loses none and
-- hands none over twice.
pub run-cancels :
    (k : ℕ) (cs : List Call) (s : Server)
    → all_handed (suc k) cs s ++ (run cs s).cancel_exec_ids (suc k)
      ≡ s.cancel_exec_ids (suc k) ++ all_asked (suc k) cs
unfolding all_handed all_asked run
run-cancels k [] s = sym (append_nil _)
run-cancels k (c ∷ cs) s =
    let x = suc k in
    append_assoc (handed x c s) (all_handed x cs (step c s)) _
    ∙ ap (λ l. handed x c s ++ l) (run-cancels k cs (step c s))
    ∙ sym (append_assoc (handed x c s) ((step c s).cancel_exec_ids x) (all_asked x cs))
    ∙ ap (λ l. l ++ all_asked x cs) (step-cancels k c s)
    ∙ append_assoc (s.cancel_exec_ids x) (asked x c) (all_asked x cs)
