-- ===== src/Tests/Queries.antt =====
-- The theorems on the registry of queries at a small registry.
use bdopsflow.Prelude.{ℕ, ◌≡◌, refl, true, ◌&&◌, List, [], ◌∷◌, none, if◌then◌else◌, ◌==◌}
use bdopsflow.QueryRegistry.{
  RunningQuery, QueryRegistry, pending, get, find, is_active, cancel, as_cancelled,
}
use bdopsflow.QueryRegistry.Laws.{map_some}
use bdopsflow.QueryRegistry.Life.{Call, call_register, call_cancel, cancel-get, is_active_at}

abbrev fresh : RunningQuery ℕ ℕ
fresh = record {
  query_id = 3;
  status = pending;
  result = none;
  error = [];
  execution_time = none;
  start_time = none;
  has_cancel_func = true;
  created_at = 10;
}

abbrev registry : QueryRegistry ℕ ℕ
registry = record { queries = fresh ∷ []; observers = 1 ∷ []; events = [] }

abbrev calls : List (Call ℕ ℕ)
calls = call_register fresh 10 ∷ call_cancel 3 ∷ []

cancel-get_example :
    ((cancel 3 registry).1 ≡ is_active_at (get 3 registry))
    × ((j : ℕ)
        → get j (cancel 3 registry).0 ≡ (
            if is_active_at (get 3 registry) && (3 == j)
            then map_some as_cancelled (get j registry)
            else get j registry))
cancel-get_example = cancel-get 3 registry

is_pending : is_active_at (get 3 registry) ≡ true
unfolding get find is_active
is_pending = refl
