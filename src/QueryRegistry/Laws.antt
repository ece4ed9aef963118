-- ===== src/QueryRegistry/Laws.antt =====
-- Lookups in the map of scheduler/internal/handler/query_registry.go after a write, and its keys.
use bdopsflow.Prelude.{
  ℕ, ◌≡◌, refl, sym, ap, ◌∙◌, Bool, true, false, not, ◌&&◌, List, [], ◌∷◌, Option, none, some,
  if◌then◌else◌, ◌==◌, any, arith, Bool-cases, inl, inr, ==_iff,
}
use bdopsflow.QueryRegistry.{RunningQuery, QueryRegistry, is_expired, find, get, put, store, kept}

unfoldable pub map_some : {A : Type 0} → (A → A) → Option A → Option A
map_some f none = none
map_some f (some a) = some (f a)

module _ {A T : Type 0} where
  has_id : ℕ → List (RunningQuery A T) → Bool
  has_id id qs = any (λ q. q.query_id == id) qs

  -- Each id has one entry.
  unfoldable pub is_unique : List (RunningQuery A T) → Bool
  unfolding has_id
  is_unique [] = true
  is_unique (q ∷ qs) = not (has_id q.query_id qs) && is_unique qs

  find-id :
      (id : ℕ) (qs : List (RunningQuery A T)) (q : RunningQuery A T)
      → find id qs ≡ some q
      → q.query_id ≡ id
  unfolding find
  find-id id [] q h = cc
  find-id id (p ∷ ps) q h = ground (arith, find-id id ps q)

  find-put :
      (j : ℕ) (q : RunningQuery A T) (qs : List (RunningQuery A T))
      → find j (put q qs) ≡ (if q.query_id == j then some q else find j qs)
  unfolding find put
  find-put j q [] = refl
  find-put j q (p ∷ ps) = ground (arith, find-put j q ps)

  has_id-put :
      (j : ℕ) (q : RunningQuery A T) (qs : List (RunningQuery A T))
      → has_id j (put q qs) ≡ (if q.query_id == j then true else has_id j qs)
  unfolding has_id put
  has_id-put j q [] = ground arith
  has_id-put j q (p ∷ ps) = ground (arith, has_id-put j q ps)

  pub is_unique-put :
      (q : RunningQuery A T) (qs : List (RunningQuery A T))
      → is_unique qs ≡ true
      → is_unique (put q qs) ≡ true
  unfolding is_unique put
  is_unique-put q [] h = refl
  is_unique-put q (p ∷ ps) h = ground (arith, is_unique-put q ps, has_id-put p.query_id q ps)

  find-has_id : (id : ℕ) (qs : List (RunningQuery A T)) → has_id id qs ≡ false → find id qs ≡ none
  unfolding find has_id
  find-has_id id [] h = refl
  find-has_id id (q ∷ qs) h = ground (arith, find-has_id id qs)

  has_id-kept :
      (age now id : ℕ) (qs : List (RunningQuery A T))
      → has_id id qs ≡ false
      → has_id id (kept age now qs) ≡ false
  unfolding has_id kept
  has_id-kept age now id [] h = refl
  has_id-kept age now id (q ∷ qs) h = ground (arith, has_id-kept age now id qs)

  pub is_unique-kept :
      (age now : ℕ) (qs : List (RunningQuery A T))
      → is_unique qs ≡ true
      → is_unique (kept age now qs) ≡ true
  unfolding is_unique kept
  is_unique-kept age now [] h = refl
  is_unique-kept age now (q ∷ qs) h =
      ground (arith, is_unique-kept age now qs, has_id-kept age now q.query_id qs)

  has_id-here :
      (q : RunningQuery A T) (j : ℕ) (qs : List (RunningQuery A T))
      → (q.query_id == j) ≡ true
      → has_id j qs ≡ has_id q.query_id qs
  has_id-here q j qs h = ap (λ i. has_id i qs) (sym ((==_iff q.query_id j).0 h))

  unfoldable pub unless_expired : ℕ → ℕ → Option (RunningQuery A T) → Option (RunningQuery A T)
  unless_expired age now none = none
  unless_expired age now (some q) = if is_expired age now q then none else some q

  pub find-kept :
      (age now j : ℕ) (qs : List (RunningQuery A T))
      → is_unique qs ≡ true
      → find j (kept age now qs) ≡ unless_expired age now (find j qs)
  unfolding find kept is_unique unless_expired
  find-kept age now j [] h = refl
  find-kept age now j (q ∷ qs) h = elim (Bool-cases (q.query_id == j)) [
    | inl here ↦ ground (
      arith,
      here,
      find-has_id j (kept age now qs),
      has_id-kept age now j qs,
      has_id-here q j qs here,
    )
    | inr there ↦ ground (arith, there, find-kept age now j qs)
  ]

  pub store-find :
      (id : ℕ) (f : RunningQuery A T → RunningQuery A T) (b : Bool) (r : QueryRegistry A T) (j : ℕ)
      → ((q : RunningQuery A T) → (f q).query_id ≡ q.query_id)
      → get j (store id (get id r) f b r) ≡ (if id == j then map_some f (get j r) else get j r)
  unfolding get store map_some
  store-find id f b r j keeps = go (find id r.queries) refl
    where
      go :
          (o : Option (RunningQuery A T))
          → find id r.queries ≡ o
          → find j (store id o f b r).queries
            ≡ (if id == j then map_some f (find j r.queries) else find j r.queries)
      go none e = elim (Bool-cases (id == j)) [
        | inl here ↦
            ground (arith, here, ap (λ i. find i r.queries) (sym ((==_iff id j).0 here)) ∙ e)
        | inr there ↦ ground (arith, there)
      ]
      go (some q) e = elim (Bool-cases (id == j)) [
        | inl here ↦ ground (
          arith,
          here,
          ap (λ i. find i r.queries) (sym ((==_iff id j).0 here)) ∙ e,
          find-put j (f q) r.queries,
          keeps q,
          find-id id r.queries q e,
        )
        | inr there ↦
            ground (arith, there, find-put j (f q) r.queries, keeps q, find-id id r.queries q e)
      ]
