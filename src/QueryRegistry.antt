-- ===== src/QueryRegistry.antt =====
-- scheduler/internal/handler/query_registry.go: the queries that run or have run, by id. The map is a
-- list with one entry for each id; a method under the lock is one step, and the clock is an argument.
-- The log has the notices to observers and the calls of a query's `CancelFunc`, newest first. A
-- result is of a type `A`, a time of execution of a type `T`; the fields of a query that no method
-- reads or writes are left out.
pub mod Laws
pub mod Life
use bdopsflow.Prelude.{
  ℕ, ◌-◌, Bool, true, false, ◌&&◌, List, [], ◌∷◌, ◌++◌, Option, none, some, if◌then◌else◌, ◌==◌,
  ltb, map,
}

pub data QueryStatus : Type 0 where
  pending running completed failed cancelled : QueryStatus

pub record RunningQuery (A T : Type 0) : Type 0 where
  pub query_id : ℕ
  pub status : QueryStatus
  pub result : Option A
  pub error : List ℕ
  pub execution_time : Option T
  pub start_time : Option ℕ
  pub has_cancel_func : Bool
  pub created_at : ℕ

pub data Event : Type 0 where
  notice : (observer query_id : ℕ) → QueryStatus → Event
  cancel_call : (query_id : ℕ) → Event

pub record QueryRegistry (A T : Type 0) : Type 0 where
  pub queries : List (RunningQuery A T)
  pub observers : List ℕ
  pub events : List Event

unfoldable pub is_active : QueryStatus → Bool
is_active pending = true
is_active running = true
is_active completed = false
is_active failed = false
is_active cancelled = false

pub is_finished : QueryStatus → Bool
is_finished pending = false
is_finished running = false
is_finished completed = true
is_finished failed = true
is_finished cancelled = true

without : ℕ → List ℕ → List ℕ
without o [] = []
without o (x ∷ xs) = let rest = without o xs in if x == o then rest else x ∷ rest

notices : List ℕ → ℕ → QueryStatus → List Event
notices observers id status = map (λ o. notice o id status) observers

cancel_calls : Bool → ℕ → List Event
cancel_calls true id = cancel_call id ∷ []
cancel_calls false id = []

module _ {A T : Type 0} where
  unfoldable pub new_query_registry : QueryRegistry A T
  new_query_registry = record { queries = []; observers = []; events = [] }

  unfoldable pub find : ℕ → List (RunningQuery A T) → Option (RunningQuery A T)
  find id [] = none
  find id (q ∷ qs) = if q.query_id == id then some q else find id qs

  unfoldable pub get : ℕ → QueryRegistry A T → Option (RunningQuery A T)
  get id r = find id r.queries

  pub put : RunningQuery A T → List (RunningQuery A T) → List (RunningQuery A T)
  put q [] = q ∷ []
  put q (p ∷ ps) = let rest = put q ps in if p.query_id == q.query_id then q ∷ ps else p ∷ rest

  unfoldable pub register : RunningQuery A T → ℕ → QueryRegistry A T → QueryRegistry A T
  unfolding put
  register q now r = record r { queries = put (record q { created_at = now }) r.queries }

  -- Writes through the pointer that the map holds, then the notices.
  pub store :
      ℕ
      → Option (RunningQuery A T)
      → (RunningQuery A T → RunningQuery A T)
      → Bool
      → QueryRegistry A T
      → QueryRegistry A T
  unfolding put notices cancel_calls
  store id none f cancels r = r
  store id (some q) f cancels r = record r {
    queries = put (f q) r.queries;
    events =
        notices r.observers id (f q).status
        ++ cancel_calls (cancels && q.has_cancel_func) id
        ++ r.events;
  }

  completed_with : A → T → RunningQuery A T → RunningQuery A T
  completed_with a t q = record q { status = completed; result = some a; execution_time = some t }

  failed_with : List ℕ → T → RunningQuery A T → RunningQuery A T
  failed_with msg t q = record q { status = failed; error = msg; execution_time = some t }

  unfoldable pub as_cancelled : RunningQuery A T → RunningQuery A T
  as_cancelled q = record q { status = cancelled }

  as_running : ℕ → RunningQuery A T → RunningQuery A T
  as_running now q = record q { status = running; start_time = some now }

  unfoldable pub update_result : ℕ → A → T → QueryRegistry A T → QueryRegistry A T
  unfolding completed_with
  update_result id a t r = store id (get id r) (completed_with a t) false r

  unfoldable pub update_error : ℕ → List ℕ → T → QueryRegistry A T → QueryRegistry A T
  unfolding failed_with
  update_error id msg t r = store id (get id r) (failed_with msg t) false r

  cancel_found : ℕ → Option (RunningQuery A T) → QueryRegistry A T → QueryRegistry A T × Bool
  unfolding as_cancelled
  cancel_found id none r = (r, false)
  cancel_found id (some q) r =
      if is_active q.status then (store id (some q) as_cancelled true r, true) else (r, false)

  unfoldable pub cancel : ℕ → QueryRegistry A T → QueryRegistry A T × Bool
  unfolding cancel_found
  cancel id r = cancel_found id (get id r) r

  unfoldable pub set_running : ℕ → ℕ → QueryRegistry A T → QueryRegistry A T
  unfolding as_running
  set_running id now r = store id (get id r) (as_running now) false r

  pub is_expired : ℕ → ℕ → RunningQuery A T → Bool
  is_expired max_age now q = is_finished q.status && ltb max_age (now - q.created_at)

  pub kept : ℕ → ℕ → List (RunningQuery A T) → List (RunningQuery A T)
  kept max_age now [] = []
  kept max_age now (q ∷ qs) =
      let rest = kept max_age now qs in if is_expired max_age now q then rest else q ∷ rest

  unfoldable pub cleanup : ℕ → ℕ → QueryRegistry A T → QueryRegistry A T
  unfolding kept
  cleanup max_age now r = record r { queries = kept max_age now r.queries }

  unfoldable pub unregister_observer : ℕ → QueryRegistry A T → QueryRegistry A T
  unfolding without
  unregister_observer o r = record r { observers = without o r.observers }

  -- The set of observers: one that is there already stays once.
  unfoldable pub register_observer : ℕ → QueryRegistry A T → QueryRegistry A T
  unfolding without
  register_observer o r = record r { observers = o ∷ without o r.observers }
