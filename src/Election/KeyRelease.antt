-- ===== src/Election/KeyRelease.antt =====
-- What `stepDown` of scheduler/pkg/election/leader.go leaves at the key.
use bdopsflow.Prelude.{
  ℕ, ◌≡◌, refl, sym, ap, ◌∙◌, ◌≢◌, true, false, if◌then◌else◌, Option, none, some, Bool-cases, inl,
  inr,
}
use bdopsflow.Redis
use bdopsflow.Redis.{Reply, ok, err, TextLaws}
use bdopsflow.Election.{Bytes, bytes_eq, LeaderElection, step_down, value_for, give_up_key}
use bdopsflow.Election.Texts.{bytes_eq-value_for, is_nil}
use bdopsflow.Election.Leadership.{get-view}

module _ {S : Type 0} (redis : Redis.Texts S Bytes Bytes) (view : S → Bytes → Option Bytes)
    (laws : TextLaws redis view) where
  -- A leader that finds its own value at the key steps down, and Redis answers: the key is gone if
  -- the node has no address, and keeps the value of the node if it has one.
  pub step_down-key :
      (e : LeaderElection) (s : S)
      → ((k : Bytes) (s : S) → redis.get k s ≢ err)
      → ((k : Bytes) (s : S) → (redis.del k s).1 ≢ err)
      → e.is_leader ≡ true
      → view s e.leader_key ≡ some (value_for e.node_id e.http_addr)
      → view (step_down redis e s).0 e.leader_key
        ≡ (if is_nil e.http_addr then none else some (value_for e.node_id e.http_addr))
  unfolding step_down
  step_down-key e s gets dels leads v =
      simp leads (given_up _ (get-view redis view laws e.leader_key s _ refl (gets e.leader_key s)))
    where
      deleted : (q : S × Reply ℕ) → redis.del e.leader_key s ≡ q → view q.0 e.leader_key ≡ none
      deleted (s', err) h = absurd (dels e.leader_key s (ap (λ (p : S × Reply ℕ). p.1) h))
      deleted (s', ok n) h =
          ap (λ (p : S × Reply ℕ). view p.0 e.leader_key) (sym h)
          ∙ laws.del_here e.leader_key s n (ap (λ (p : S × Reply ℕ). p.1) h)

      given_up :
          (r : Reply (Option Bytes))
          → r ≡ ok (view s e.leader_key)
          → view (give_up_key redis r e s) e.leader_key
            ≡ (if is_nil e.http_addr then none else some (value_for e.node_id e.http_addr))
      given_up err h = cc
      given_up (ok none) h = cc
      given_up (ok (some holder)) h =
          let q : holder ≡ value_for e.node_id e.http_addr = cc in
          let eq : bytes_eq holder e.node_id ≡ is_nil e.http_addr =
            rw q (bytes_eq-value_for e.node_id e.http_addr) in
          elim (Bool-cases (is_nil e.http_addr)) [
            | inl bare ↦
                let y : bytes_eq holder e.node_id ≡ true = eq ∙ bare in
                simp (y, bare) (deleted (redis.del e.leader_key s) refl)
            | inr addressed ↦
                let y : bytes_eq holder e.node_id ≡ false = eq ∙ addressed in simp (y, addressed) v
          ]
