-- ===== src/QueryRegistry/Life.antt =====
-- The life of a query under the methods of scheduler/internal/handler/query_registry.go.
use bdopsflow.Prelude.{
  ℕ, ◌≡◌, refl, ap, subst, ◌∙◌, Bool, true, false, ◌&&◌, List, [], ◌∷◌, Option, none, some,
  if◌then◌else◌, ◌==◌, arith,
}
use bdopsflow.QueryRegistry.{
  RunningQuery, QueryRegistry, is_active, get, store, new_query_registry, register, update_result,
  update_error, cancel, set_running, cleanup, register_observer, unregister_observer, as_cancelled,
  cancel_found, completed_with, failed_with, as_running,
}
use bdopsflow.QueryRegistry.Laws.{
  map_some, is_unique, store-find, unless_expired, find-kept, is_unique-put, is_unique-kept,
}

-- A call of one of the methods that write.
pub data Call (A T : Type 0) : Type 0 where
  call_register : RunningQuery A T → (now : ℕ) → Call A T
  call_result : ℕ → A → T → Call A T
  call_error : ℕ → List ℕ → T → Call A T
  call_cancel : ℕ → Call A T
  call_running : ℕ → (now : ℕ) → Call A T
  call_cleanup : (max_age now : ℕ) → Call A T
  call_observe call_unobserve : ℕ → Call A T

module _ {A T : Type 0} where
  pub apply : Call A T → QueryRegistry A T → QueryRegistry A T
  apply (call_register q now) r = register q now r
  apply (call_result id a t) r = update_result id a t r
  apply (call_error id msg t) r = update_error id msg t r
  apply (call_cancel id) r = (cancel id r).0
  apply (call_running id now) r = set_running id now r
  apply (call_cleanup age now) r = cleanup age now r
  apply (call_observe o) r = register_observer o r
  apply (call_unobserve o) r = unregister_observer o r

  pub run : List (Call A T) → QueryRegistry A T → QueryRegistry A T
  run [] r = r
  run (c ∷ cs) r = run cs (apply c r)

  store-is_unique :
      (id : ℕ) (o : Option (RunningQuery A T)) (f : RunningQuery A T → RunningQuery A T) (b : Bool)
      (r : QueryRegistry A T)
      → is_unique r.queries ≡ true
      → is_unique (store id o f b r).queries ≡ true
  unfolding store
  store-is_unique id none f b r h = h
  store-is_unique id (some q) f b r h = is_unique-put (f q) r.queries h

  cancel-is_unique :
      (id : ℕ) (o : Option (RunningQuery A T)) (r : QueryRegistry A T)
      → is_unique r.queries ≡ true
      → is_unique (cancel_found id o r).0.queries ≡ true
  unfolding cancel_found
  cancel-is_unique id none r h = h
  cancel-is_unique id (some q) r h = by_test (is_active q.status)
    where
      answer : Bool → QueryRegistry A T × Bool
      answer b = if b then (store id (some q) as_cancelled true r, true) else (r, false)

      by_test : (b : Bool) → is_unique (answer b).0.queries ≡ true
      by_test true = store-is_unique id (some q) as_cancelled true r h
      by_test false = h

  apply-is_unique :
      (c : Call A T) (r : QueryRegistry A T)
      → is_unique r.queries ≡ true
      → is_unique (apply c r).queries ≡ true
  unfolding apply register update_result update_error cancel set_running cleanup register_observer
      unregister_observer
  apply-is_unique (call_register q now) r h =
      is_unique-put (record q { created_at = now }) r.queries h
  apply-is_unique (call_result id a t) r h =
      store-is_unique id (get id r) (completed_with a t) false r h
  apply-is_unique (call_error id msg t) r h =
      store-is_unique id (get id r) (failed_with msg t) false r h
  apply-is_unique (call_cancel id) r h = cancel-is_unique id (get id r) r h
  apply-is_unique (call_running id now) r h =
      store-is_unique id (get id r) (as_running now) false r h
  apply-is_unique (call_cleanup age now) r h = is_unique-kept age now r.queries h
  apply-is_unique (call_observe o) r h = h
  apply-is_unique (call_unobserve o) r h = h

  run-is_unique :
      (cs : List (Call A T)) (r : QueryRegistry A T)
      → is_unique r.queries ≡ true
      → is_unique (run cs r).queries ≡ true
  unfolding run
  run-is_unique [] r h = h
  run-is_unique (c ∷ cs) r h = run-is_unique cs (apply c r) (apply-is_unique c r h)

  -- After any calls on a new registry, a cleanup removes exactly the finished queries that are older
  -- than the maximal age, and leaves every other lookup as it was.
  pub cleanup-run :
      (cs : List (Call A T)) (age now j : ℕ)
      → get j (cleanup age now (run cs new_query_registry))
        ≡ unless_expired age now (get j (run cs new_query_registry))
  unfolding get cleanup
  cleanup-run cs age now j =
      find-kept age now j (run cs new_query_registry).queries
        (run-is_unique cs new_query_registry empty)
    where
      empty : is_unique (new_query_registry {A = A} {T = T}).queries ≡ true
      empty = (unfold new_query_registry is_unique in refl)

  -- Does the lookup give a query that can be cancelled?
  abbrev pub is_active_at : Option (RunningQuery A T) → Bool
  is_active_at none = false
  is_active_at (some q) = is_active q.status

  -- `Cancel` answers true exactly for a query that is pending or running; it then has the status
  -- cancelled and is otherwise as it was, and so is every other query.
  pub cancel-get :
      (id : ℕ) (r : QueryRegistry A T)
      → ((cancel id r).1 ≡ is_active_at (get id r))
        × ((j : ℕ)
            → get j (cancel id r).0 ≡ (
                if is_active_at (get id r) && (id == j)
                then map_some as_cancelled (get j r)
                else get j r))
  unfolding cancel cancel_found as_cancelled
  cancel-get id r = go (get id r) refl
    where
      Goal : Option (RunningQuery A T) → Type 0
      Goal o =
          ((cancel_found id o r).1 ≡ is_active_at o)
          × ((j : ℕ)
              → get j (cancel_found id o r).0 ≡ (
                  if is_active_at o && (id == j) then map_some as_cancelled (get j r) else get j r))

      go : (o : Option (RunningQuery A T)) → get id r ≡ o → Goal o
      go none e = (refl, λ j. refl)
      go (some q) e = by_test (is_active q.status)
        where
          answer : Bool → QueryRegistry A T × Bool
          answer b = if b then (store id (some q) as_cancelled true r, true) else (r, false)

          by_test :
              (b : Bool)
              → ((answer b).1 ≡ b)
                × ((j : ℕ)
                    → get j (answer b).0
                      ≡ (if b && (id == j) then map_some as_cancelled (get j r) else get j r))
          by_test false = (refl, λ j. refl)
          by_test true = (
            refl,
            λ j.
                subst
                  (λ o.
                    get j (store id o as_cancelled true r)
                    ≡ (if id == j then map_some as_cancelled (get j r) else get j r))
                  e (store-find id as_cancelled true r j (λ p. refl)),
          )

  -- A query that is cancelled before its goroutine calls `SetRunning` is running again after that call,
  -- and can be cancelled again: the status cancelled is overwritten.
  pub set_running-cancel :
      (id now : ℕ) (r : QueryRegistry A T)
      → is_active_at (get id r) ≡ true
      → (cancel id (set_running id now (cancel id r).0)).1 ≡ true
  unfolding set_running as_running map_some as_cancelled is_active
  set_running-cancel id now r h =
      (cancel-get id (set_running id now (cancel id r).0)).0
      ∙ ap is_active_at (store-find id (as_running now) false (cancel id r).0 id (λ q. refl))
      ∙ ap (λ o. is_active_at (if id == id then map_some (as_running now) o else o))
          ((cancel-get id r).1 id)
      ∙ by_lookup (get id r) h
    where
      by_lookup :
          (o : Option (RunningQuery A T))
          → is_active_at o ≡ true
          → is_active_at (
              if id == id
              then map_some
                  (as_running now)
                  (if is_active_at o && (id == id) then map_some as_cancelled o else o)
              else if is_active_at o && (id == id)
              then map_some as_cancelled o
              else o)
            ≡ true
      by_lookup none k = cc
      by_lookup (some q) k = ground arith
