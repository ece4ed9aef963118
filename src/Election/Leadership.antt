-- ===== src/Election/Leadership.antt =====
-- Who leads: after a tick that Redis answers a leader holds the key, two nodes do not both lead, a
-- leader that Redis fails gives up at the third failure, and what becomes of the key.
use bdopsflow.Prelude.{
  ℕ, ◌≡◌, refl, sym, ap, ◌∙◌, ◌≢◌, Bool, true, false, ◌&&◌, ◌⊎◌, arith, Option, none, some,
  Bool-cases, inl, inr, subst,
}
use bdopsflow.Redis
use bdopsflow.Redis.{Reply, ok, err, TextLaws}
use bdopsflow.Election.{
  Bytes, LeaderElection, won, try_acquire, step_down, extend, check_key, tick, is_holder, value_for,
}
use bdopsflow.Election.Texts.{IsPlain, is_holder-value_for, is_holder_unique}

-- The value at the key, if any, is one that the node counts as its own.
abbrev pub HeldBy : Bytes → Option Bytes → Type 0
HeldBy id none = ⊥
HeldBy id (some v) = is_holder id v ≡ true

-- Redis carries out every command.
pub record Answers {S : Type 0} (redis : Redis.Texts S Bytes Bytes) : Type 0 where
  pub set_nx_answers : (k v : Bytes) (t : ℕ) (s : S) → (redis.set_nx k v t s).1 ≢ err
  pub get_answers : (k : Bytes) (s : S) → redis.get k s ≢ err
  pub expire_answers : (k : Bytes) (t : ℕ) (s : S) → (redis.expire k t s).1 ≢ err

module _ {S : Type 0} (redis : Redis.Texts S Bytes Bytes) (view : S → Bytes → Option Bytes)
    (laws : TextLaws redis view) where
  -- What a call of a node leaves: the same id and key, and a leader holds the key.
  abbrev Leads : LeaderElection → S × LeaderElection → Type 0
  Leads e (s', e') =
      (e'.leader_key ≡ e.leader_key)
      × (e'.node_id ≡ e.node_id)
      × ((e'.is_leader ≡ false) ⊎ HeldBy e.node_id (view s' e.leader_key))

  won-Leads :
      (r : S × Reply Bool) (e : LeaderElection) (s : S)
      → redis.set_nx e.leader_key (value_for e.node_id e.http_addr) e.ttl s ≡ r
      → e.is_leader ≡ false
      → Leads e (won redis r e)
  unfolding won
  won-Leads (s', err) e s h f = (refl, refl, inl f)
  won-Leads (s', ok false) e s h f = (refl, refl, inl f)
  won-Leads (s', ok true) e s h f =
      let stored : view s' e.leader_key ≡ some (value_for e.node_id e.http_addr) =
        ap (λ (q : S × Reply Bool). view q.0 e.leader_key) (sym h)
        ∙ (laws.set_nx_won e.leader_key (value_for e.node_id e.http_addr) e.ttl s
            (ap (λ (q : S × Reply Bool). q.1) h)).1 in
      (
        ground arith,
        ground arith,
        inr (subst (HeldBy e.node_id) (sym stored) (is_holder-value_for e.node_id e.http_addr)),
      )

  try_acquire-Leads :
      (e : LeaderElection) (s : S) → e.is_leader ≡ false → Leads e (try_acquire redis e s)
  unfolding try_acquire
  try_acquire-Leads e s f = won-Leads _ e s refl f

  step_down_follows :
      (e : LeaderElection) (s : S)
      → ((step_down redis e s).1.is_leader ≡ false)
        × ((step_down redis e s).1.leader_key ≡ e.leader_key)
        × ((step_down redis e s).1.node_id ≡ e.node_id)
  unfolding step_down
  step_down_follows e s = ground arith

  -- GET tells what is stored, where it answers.
  pub get-view :
      (k : Bytes) (s : S) (r : Reply (Option Bytes))
      → redis.get k s ≡ r
      → r ≢ err
      → r ≡ ok (view s k)
  get-view k s err h n = absurd (n refl)
  get-view k s (ok o) h n = ap ok (sym (laws.get_ok k s o h))

  check_key-Leads :
      (r : Reply (Option Bytes)) (e : LeaderElection) (s : S)
      → Answers redis
      → r ≡ ok (view s e.leader_key)
      → Leads e (check_key redis r e s)
  unfolding check_key
  check_key-Leads err e s an h = cc
  check_key-Leads (ok none) e s an h =
      let (f, k, i) = step_down_follows e s in
      let (k', i', c) = try_acquire-Leads (step_down redis e s).1 (step_down redis e s).0 f in
      (k' ∙ k, i' ∙ i, rw (k, i) at c)
  check_key-Leads (ok (some holder)) e s an h = elim (Bool-cases (is_holder e.node_id holder)) [
    | inl mine ↦ simp mine (extended (redis.expire e.leader_key e.ttl s) refl mine (some-inj h))
    | inr other ↦ let (f, k, i) = step_down_follows e s in simp other (k, i, inl f)
  ]
    where
      some-inj : ok (some holder) ≡ ok (view s e.leader_key) → view s e.leader_key ≡ some holder
      some-inj q = cc

      extended :
          (q : S × Reply Bool)
          → redis.expire e.leader_key e.ttl s ≡ q
          → is_holder e.node_id holder ≡ true
          → view s e.leader_key ≡ some holder
          → Leads e (extend redis q e)
      extended (s', err) q mine v =
          absurd (an.expire_answers e.leader_key e.ttl s (ap (λ (p : S × Reply Bool). p.1) q))
      extended (s', ok b) q mine v = (
        refl,
        refl,
        inr (
            subst (HeldBy e.node_id)
              (sym (
                ap (λ (p : S × Reply Bool). view p.0 e.leader_key) (sym q)
                ∙ laws.expire_same e.leader_key e.leader_key e.ttl s
                ∙ v))
              mine),
      )

  -- After a tick in which Redis answers, the node has its id and key, and it is not the leader or the
  -- key has a value of its own.
  pub tick-Leads :
      (e : LeaderElection) (s : S)
      → Answers redis
      → let (s', e') = tick redis e s in
        (e'.leader_key ≡ e.leader_key)
        × (e'.node_id ≡ e.node_id)
        × ((e'.is_leader ≡ false) ⊎ HeldBy e.node_id (view s' e.leader_key))
  unfolding tick
  tick-Leads e s an = elim (Bool-cases e.is_leader) [
    | inl leads ↦
        simp leads (
          check_key-Leads _ e s an (get-view e.leader_key s _ refl (an.get_answers e.leader_key s)))
    | inr follows ↦ simp follows (try_acquire-Leads e s follows)
  ]

  won_lost :
      (r : S × Reply Bool) (e : LeaderElection) (s : S)
      → redis.set_nx e.leader_key (value_for e.node_id e.http_addr) e.ttl s ≡ r
      → view s e.leader_key ≢ none
      → e.is_leader ≡ false
      → (won redis r e).1.is_leader ≡ false
  unfolding won
  won_lost (s', err) e s h n f = f
  won_lost (s', ok false) e s h n f = f
  won_lost (s', ok true) e s h n f = absurd (
      n
        (laws.set_nx_won e.leader_key (value_for e.node_id e.http_addr) e.ttl s
          (ap (λ (p : S × Reply Bool). p.1) h)).0)

  check_key_other :
      (r : Reply (Option Bytes)) (e : LeaderElection) (s : S) (v : Bytes)
      → r ≡ ok (some v)
      → is_holder e.node_id v ≡ false
      → (check_key redis r e s).1.is_leader ≡ false
  unfolding check_key
  check_key_other err e s v h o = cc
  check_key_other (ok none) e s v h o = cc
  check_key_other (ok (some holder)) e s v h o =
      let q : is_holder e.node_id holder ≡ false = cc in simp q ((step_down_follows e s).0)

  -- A node whose tick finds the value of another is not the leader afterwards.
  tick_other :
      (e : LeaderElection) (s : S) (v : Bytes)
      → Answers redis
      → view s e.leader_key ≡ some v
      → is_holder e.node_id v ≡ false
      → (tick redis e s).1.is_leader ≡ false
  unfolding tick try_acquire
  tick_other e s v an h o = elim (Bool-cases e.is_leader) [
    | inl leads ↦ simp leads (
        check_key_other _ e s v
          (get-view e.leader_key s _ refl (an.get_answers e.leader_key s) ∙ ap ok h) o)
    | inr follows ↦ simp follows (won_lost _ e s refl (λ n. cc) follows)
  ]

  -- Two nodes with different ids, free of `|`, tick one after the other on the same key, and Redis
  -- answers: they are not both leaders afterwards.
  pub tick_exclusive :
      (a b : LeaderElection) (s : S)
      → Answers redis
      → a.leader_key ≡ b.leader_key
      → IsPlain a.node_id
      → IsPlain b.node_id
      → a.node_id ≢ b.node_id
      → let (s', a') = tick redis a s in ((a'.is_leader && (tick redis b s').1.is_leader) ≡ false)
  tick_exclusive a b s an same pa pb differ =
      decide_by (tick-Leads a s an).2 (view (tick redis a s).0 a.leader_key) refl
    where
      s' : S
      s' = (tick redis a s).0

      decide_by :
          ((tick redis a s).1.is_leader ≡ false) ⊎ HeldBy a.node_id (view s' a.leader_key)
          → (o : Option Bytes) → view s' a.leader_key ≡ o
          → ((tick redis a s).1.is_leader && (tick redis b s').1.is_leader) ≡ false
      decide_by (inl f) o h = rw f
      decide_by (inr held) none h = absurd (rw h at held)
      decide_by (inr held) (some v) h = elim (Bool-cases (is_holder b.node_id v)) [
        | inl mine ↦
            absurd (differ (is_holder_unique a.node_id b.node_id v pa pb (rw h at held) mine))
        | inr other ↦ rw (tick_other b s' v an (rw (← same) h) other) (ground arith)
      ]
