-- ===== src/Election/Callbacks.antt =====
-- The callbacks: a node that becomes the leader calls `onAcquire` once before it calls `onRelease`,
-- whatever Redis replies.
use bdopsflow.Prelude.{
  ℕ, ◌+◌, ◌≡◌, refl, Bool, true, false, List, [], ◌∷◌, arith, leb, not, ◌&&◌, Option, none, some,
  Bool-cases, inl, inr,
}
use bdopsflow.Redis
use bdopsflow.Redis.{Reply, ok, err}
use bdopsflow.Election.{
  Bytes, Callback, acquired, released, LeaderElection, new_leader_election, won, try_acquire,
  step_down, register_acquire, register_release, fail, extend, check_key, tick, stop, failures,
  is_holder,
}

-- The log, newest first, alternates, and its newest entry tells whether the node leads.
abbrev pub alternates : Bool → List Callback → Bool
alternates leads [] = not leads
alternates leads (acquired ∷ log) = leads && alternates false log
alternates leads (released ∷ log) = not leads && alternates true log

pub record IsLogged (e : LeaderElection) : Type 0 where
  pub acquire_set : e.on_acquire ≡ true
  pub release_set : e.on_release ≡ true
  pub in_turn : alternates e.is_leader e.callbacks ≡ true

-- What the environment does to a node: ticks of the clock and a `Stop`.
pub data Action : Type 0 where
  ticks stops : Action

module _ {S : Type 0} (redis : Redis.Texts S Bytes Bytes) where
  won-IsLogged : (r : S × Reply Bool) (e : LeaderElection) → IsLogged e → IsLogged (won redis r e).1
  unfolding won
  won-IsLogged (s, err) e v = v
  won-IsLogged (s, ok false) e v = v
  won-IsLogged (s, ok true) e v = ground arith

  step_down-IsLogged : (e : LeaderElection) (s : S) → IsLogged e → IsLogged (step_down redis e s).1
  unfolding step_down
  step_down-IsLogged e s v = ground arith

  -- The failure count is not part of the log.
  failures-IsLogged : (n : ℕ) (e : LeaderElection) → IsLogged e → IsLogged (failures n e)
  failures-IsLogged n e v = record {
    acquire_set = v.acquire_set;
    release_set = v.release_set;
    in_turn = v.in_turn;
  }

  try_acquire-IsLogged :
      (e : LeaderElection) (s : S) → IsLogged e → IsLogged (try_acquire redis e s).1
  unfolding try_acquire
  try_acquire-IsLogged e s v = won-IsLogged _ e v

  fail-IsLogged : (e : LeaderElection) (s : S) → IsLogged e → IsLogged (fail redis e s).1
  unfolding fail
  fail-IsLogged e s v = elim (Bool-cases (leb 3 (e.consecutive_failures + 1))) [
    | inl third ↦ simp third (failures-IsLogged 0 _ (step_down-IsLogged e s v))
    | inr early ↦ simp early (failures-IsLogged (e.consecutive_failures + 1) e v)
  ]

  extend-IsLogged :
      (r : S × Reply Bool) (e : LeaderElection) → IsLogged e → IsLogged (extend redis r e).1
  unfolding extend
  extend-IsLogged (s, err) e v = fail-IsLogged e s v
  extend-IsLogged (s, ok b) e v = failures-IsLogged 0 e v

  check_key-IsLogged :
      (r : Reply (Option Bytes)) (e : LeaderElection) (s : S)
      → IsLogged e
      → IsLogged (check_key redis r e s).1
  unfolding check_key
  check_key-IsLogged err e s v = fail-IsLogged e s v
  check_key-IsLogged (ok none) e s v =
      failures-IsLogged 0 _ (try_acquire-IsLogged _ _ (step_down-IsLogged e s v))
  check_key-IsLogged (ok (some holder)) e s v = elim (Bool-cases (is_holder e.node_id holder)) [
    | inl mine ↦ simp mine (extend-IsLogged _ e v)
    | inr other ↦ simp other (failures-IsLogged 0 _ (step_down-IsLogged e s v))
  ]

  tick-IsLogged : (e : LeaderElection) (s : S) → IsLogged e → IsLogged (tick redis e s).1
  unfolding tick
  tick-IsLogged e s v = elim (Bool-cases e.is_leader) [
    | inl leads ↦ simp leads (check_key-IsLogged _ e s v)
    | inr follows ↦ simp follows (failures-IsLogged 0 _ (try_acquire-IsLogged e s v))
  ]

  -- One action of the node, on the server acts it then is.
  act : Action → LeaderElection → S → S × LeaderElection
  act ticks e s = tick redis e s
  act stops e s = stop redis e s

  -- Between two actions of the node the server is changed by others: each action finds a server of
  -- its own.
  pub runs : List (Action × S) → LeaderElection → LeaderElection
  unfolding act
  runs [] e = e
  runs ((a, s) ∷ acts) e = runs acts (act a e s).1

  runs-IsLogged :
      (acts : List (Action × S)) (e : LeaderElection) → IsLogged e → IsLogged (runs acts e)
  unfolding runs
  runs-IsLogged [] e v = v
  runs-IsLogged ((ticks, s) ∷ acts) e v =
      runs-IsLogged acts (tick redis e s).1 (tick-IsLogged e s v)
  runs-IsLogged ((stops, s) ∷ acts) e v =
      runs-IsLogged acts (stop redis e s).1 (unfold stop in step_down-IsLogged e s v)

  -- Through any ticks and stops, with any replies of Redis and any changes that others make to it,
  -- `onAcquire` and `onRelease` of a new node are called in turn, `onAcquire` first, and the node is
  -- the leader exactly while the last call was `onAcquire`.
  pub runs-new-alternates :
      (key id addr : Bytes) (ttl : ℕ) (acts : List (Action × S))
      → let e =
          runs acts (register_release (register_acquire (new_leader_election key id addr ttl))) in
        alternates e.is_leader e.callbacks ≡ true
  unfolding new_leader_election register_acquire register_release
  runs-new-alternates key id addr ttl acts =
      (runs-IsLogged acts _
        (record { acquire_set = refl; release_set = refl; in_turn = refl })).in_turn
