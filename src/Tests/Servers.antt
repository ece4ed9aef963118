-- ===== src/Tests/Servers.antt =====
-- The theorem on the server of the executors at a few calls.
use bdopsflow.Prelude.{◌≡◌, false, List, [], ◌∷◌, ◌++◌}
use bdopsflow.GrpcServer.{Server}
use bdopsflow.GrpcServer.Cancellations.{
  Call, cancels, beats, run, all_handed, all_asked, run-cancels,
}

abbrev server : Server
server = record {
  executors = 3 ∷ [];
  need_exec_sync = λ i. false;
  cancel_exec_ids = λ i. [];
  is_new_leader = false;
  is_leader = false;
  node_id = 1;
}

abbrev calls : List Call
calls = cancels 3 7 ∷ cancels 4 8 ∷ beats 3 false ∷ cancels 3 9 ∷ []

run-cancels_example :
    all_handed 3 calls server ++ (run calls server).cancel_exec_ids 3
    ≡ server.cancel_exec_ids 3 ++ all_asked 3 calls
run-cancels_example = run-cancels 2 calls server
