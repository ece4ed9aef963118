-- ===== src/Election.antt =====
-- scheduler/pkg/election/leader.go: a node's part in the leader election over one Redis key. Texts are
-- lists of bytes. The state of a node is the record `LeaderElection` with the variable
-- `consecutiveFailures` of `watch` and the callbacks made so far, newest first; one tick of `watch` is
-- one function. Redis is a parameter, and a command returns the server's new state and a reply.
pub mod Texts
pub mod Leadership
pub mod KeyRelease
pub mod Outage
pub mod Callbacks
use bdopsflow.Prelude.{
  ℕ, zero, suc, ◌+◌, Bool, true, false, ◌||◌, List, [], ◌∷◌, ◌++◌, if◌then◌else◌, ◌==◌, leb, Option,
  none, some,
}
use bdopsflow.Redis
use bdopsflow.Redis.{Reply, ok, err}

abbrev pub Bytes : Type 0
Bytes = List ℕ

pub data Callback : Type 0 where
  acquired released : Callback

-- `on_acquire` and `on_release` tell whether a callback is registered.
pub record LeaderElection : Type 0 where
  pub leader_key : Bytes
  pub node_id : Bytes
  pub http_addr : Bytes
  pub ttl : ℕ
  pub is_leader : Bool
  pub on_acquire : Bool
  pub on_release : Bool
  pub consecutive_failures : ℕ
  pub callbacks : List Callback

unfoldable pub new_leader_election : Bytes → Bytes → Bytes → ℕ → LeaderElection
new_leader_election leader_key node_id http_addr ttl = record {
  leader_key = leader_key;
  node_id = node_id;
  http_addr = http_addr;
  ttl = ttl;
  is_leader = false;
  on_acquire = false;
  on_release = false;
  consecutive_failures = 0;
  callbacks = [];
}

-- `OnAcquire` and `OnRelease` with a function that is not nil.
unfoldable pub register_acquire : LeaderElection → LeaderElection
register_acquire e = record e { on_acquire = true }

unfoldable pub register_release : LeaderElection → LeaderElection
register_release e = record e { on_release = true }

-- The separator `|`.
abbrev pub sep : ℕ
sep = 0x7c

abbrev pub bytes_eq : Bytes → Bytes → Bool
bytes_eq [] [] = true
bytes_eq [] (y ∷ ys) = false
bytes_eq (x ∷ xs) [] = false
bytes_eq (x ∷ xs) (y ∷ ys) = if x == y then bytes_eq xs ys else false

abbrev pub has_prefix : Bytes → Bytes → Bool
has_prefix s [] = true
has_prefix [] (p ∷ ps) = false
has_prefix (c ∷ s) (p ∷ ps) = if c == p then has_prefix s ps else false

-- The value that a node writes at the key: its id, or `id|addr` if it has an address.
unfoldable pub value_for : Bytes → Bytes → Bytes
value_for node_id [] = node_id
value_for node_id (c ∷ addr) = node_id ++ sep ∷ c ∷ addr

-- `currentHolder == e.nodeID || strings.HasPrefix(currentHolder, e.nodeID+"|")`.
pub is_holder : Bytes → Bytes → Bool
is_holder node_id holder = bytes_eq holder node_id || has_prefix holder (node_id ++ sep ∷ [])

call_back : Bool → Callback → List Callback → List Callback
call_back true c log = c ∷ log
call_back false c log = log

max_failures : ℕ
max_failures = 3

abbrev pub failures : ℕ → LeaderElection → LeaderElection
failures n e = record e { consecutive_failures = n }

-- `wasLeader` is the flag before.
become_leader : Bool → LeaderElection → LeaderElection
unfolding call_back
become_leader true e = e
become_leader false e = record e {
  is_leader = true;
  callbacks = call_back e.on_acquire acquired e.callbacks;
}

lose_leader : LeaderElection → LeaderElection
unfolding call_back
lose_leader e = record e {
  is_leader = false;
  callbacks = call_back e.on_release released e.callbacks;
}

module _ {S : Type 0} (redis : Redis.Texts S Bytes Bytes) where
  won : S × Reply Bool → LeaderElection → S × LeaderElection
  unfolding become_leader
  won (s, err) e = (s, e)
  won (s, ok true) e = (s, become_leader e.is_leader e)
  won (s, ok false) e = (s, e)

  unfoldable pub try_acquire : LeaderElection → S → S × LeaderElection
  unfolding won value_for
  try_acquire e s = won (redis.set_nx e.leader_key (value_for e.node_id e.http_addr) e.ttl s) e

  -- A node that steps down deletes the key if its value is the id of the node.
  give_up_key : Reply (Option Bytes) → LeaderElection → S → S
  give_up_key err e s = s
  give_up_key (ok none) e s = s
  give_up_key (ok (some holder)) e s =
      if bytes_eq holder e.node_id then (redis.del e.leader_key s).0 else s

  unfoldable pub step_down : LeaderElection → S → S × LeaderElection
  unfolding lose_leader give_up_key
  step_down e s =
      if e.is_leader then (give_up_key (redis.get e.leader_key s) e s, lose_leader e) else (s, e)

  -- `consecutiveFailures++`, and at the third the node steps down.
  fail : LeaderElection → S → S × LeaderElection
  unfolding max_failures
  fail e s =
      if leb max_failures (e.consecutive_failures + 1)
      then (let (s', e') = step_down e s in (s', failures 0 e'))
      else (s, failures (e.consecutive_failures + 1) e)

  extend : S × Reply Bool → LeaderElection → S × LeaderElection
  unfolding fail
  extend (s, err) e = fail e s
  extend (s, ok b) e = (s, failures 0 e)

  -- What a leader does with the reply of its GET.
  check_key : Reply (Option Bytes) → LeaderElection → S → S × LeaderElection
  unfolding extend fail
  check_key err e s = fail e s
  check_key (ok none) e s =
      let (s₁, e₁) = step_down e s in let (s₂, e₂) = try_acquire e₁ s₁ in (s₂, failures 0 e₂)
  check_key (ok (some holder)) e s =
      if is_holder e.node_id holder
      then extend (redis.expire e.leader_key e.ttl s) e
      else (let (s', e') = step_down e s in (s', failures 0 e'))

  pub tick : LeaderElection → S → S × LeaderElection
  unfolding check_key
  tick e s =
      if e.is_leader
      then check_key (redis.get e.leader_key s) e s
      else (let (s', e') = try_acquire e s in (s', failures 0 e'))

  unfoldable pub stop : LeaderElection → S → S × LeaderElection
  stop e s = step_down e s

-- What `GetLeaderInfo` makes of the key's value: the parts before and after the first `|`.
pub split_value : Bytes → Bytes × Bytes
split_value [] = ([], [])
split_value (c ∷ s) = let (id, addr) = split_value s in if c == sep then ([], s) else (c ∷ id, addr)

pub data Info : Type 0 where
  failed : Info
  leader_is : Bytes → Bytes → Info

info_of : Reply (Option Bytes) → Info
unfolding split_value
info_of err = failed
info_of (ok none) = failed
info_of (ok (some v)) = let (id, addr) = split_value v in leader_is id addr

-- An absent key is the error `redis.Nil`.
unfoldable pub get_leader_info :
    {S : Type 0} → Redis.Texts S Bytes Bytes → LeaderElection → S → Info
unfolding info_of
get_leader_info redis e s = info_of (redis.get e.leader_key s)
