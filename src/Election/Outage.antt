-- ===== src/Election/Outage.antt =====
-- A leader whose checks of the key fail (`watch` in scheduler/pkg/election/leader.go).
use bdopsflow.Prelude.{
  ℕ, ◌+◌, ◌<◌, ◌≤◌, ◌≡◌, refl, ◌∙◌, Bool, true, false, List, [], ◌∷◌, arith, length, Bool-cases,
  inl, inr, ltb, ltb→lt,
}
use bdopsflow.Redis
use bdopsflow.Redis.{Reply, ok, err, TextLaws}
use bdopsflow.Election.{
  Bytes, LeaderElection, won, try_acquire, step_down, fail, check_key, tick, value_for,
}

-- The node after ticks on the given servers.
pub ticks_on : {S : Type 0} → Redis.Texts S Bytes Bytes → List S → LeaderElection → LeaderElection
ticks_on redis [] e = e
ticks_on redis (s ∷ ss) e = ticks_on redis ss (tick redis e s).1

-- Redis fails every GET and every SET NX.
pub record Fails {S : Type 0} (redis : Redis.Texts S Bytes Bytes) : Type 0 where
  pub get_fails : (k : Bytes) (s : S) → redis.get k s ≡ err
  pub set_nx_fails : (k v : Bytes) (t : ℕ) (s : S) → (redis.set_nx k v t s).1 ≡ err

module _ {S : Type 0} (redis : Redis.Texts S Bytes Bytes) (down : Fails redis) where
  won_fails : (r : S × Reply Bool) (e : LeaderElection) → r.1 ≡ err → (won redis r e).1 ≡ e
  unfolding won
  won_fails (s, err) e h = refl
  won_fails (s, ok b) e h = cc

  tick_follower :
      (e : LeaderElection) (s : S) → e.is_leader ≡ false → (tick redis e s).1.is_leader ≡ false
  unfolding tick try_acquire
  tick_follower e s f =
      let same =
        won_fails (redis.set_nx e.leader_key (value_for e.node_id e.http_addr) e.ttl s) e
          (down.set_nx_fails e.leader_key (value_for e.node_id e.http_addr) e.ttl s) in
      simp f (rw same f)

  ticks_on_follower :
      (ss : List S) (e : LeaderElection)
      → e.is_leader ≡ false
      → (ticks_on redis ss e).is_leader ≡ false
  unfolding ticks_on
  ticks_on_follower [] e f = f
  ticks_on_follower (s ∷ ss) e f = ticks_on_follower ss (tick redis e s).1 (tick_follower e s f)

  tick_early :
      (e : LeaderElection) (s : S)
      → e.is_leader ≡ true
      → e.consecutive_failures + 1 < 3
      → ((tick redis e s).1.is_leader ≡ true)
        × ((tick redis e s).1.consecutive_failures ≡ e.consecutive_failures + 1)
  unfolding tick check_key fail
  tick_early e s t h = ground (arith, down.get_fails e.leader_key s)

  tick_third :
      (e : LeaderElection) (s : S)
      → e.is_leader ≡ true
      → 3 ≤ e.consecutive_failures + 1
      → (tick redis e s).1.is_leader ≡ false
  unfolding tick check_key fail step_down
  tick_third e s t h = ground (arith, down.get_fails e.leader_key s)

  -- While Redis fails, a leader stays the leader for as long as fewer than three checks in a row
  -- have failed, and is not the leader from the third on.
  pub ticks_on_leads :
      (ss : List S) (e : LeaderElection)
      → e.is_leader ≡ true
      → e.consecutive_failures < 3
      → (ticks_on redis ss e).is_leader ≡ ltb (e.consecutive_failures + length ss) 3
  unfolding ticks_on
  ticks_on_leads [] e t h = ground arith
  ticks_on_leads (s ∷ ss) e t h = elim (Bool-cases (ltb (e.consecutive_failures + 1) 3)) [
    | inl early ↦
        let (t', k) = tick_early e s t (ltb→lt _ _ early) in
        ticks_on_leads ss (tick redis e s).1 t' (ground arith) ∙ rw k (ground arith)
    | inr third ↦
        ticks_on_follower ss (tick redis e s).1 (tick_third e s t (ground arith)) ∙ ground arith
  ]
