-- ===== src/Tests/Leaders.antt =====
-- The theorems on the leader election and the lock at a server that is a function.
use native.Mathlib.Decide.{ℕ_discrete}
use mathlib.Core.Logic.{ite}
use bdopsflow.Prelude.{◌≡◌, refl, ◌≢◌, Bool, true, false, ◌&&◌, [], ◌∷◌, arith, Option, none, some}
use bdopsflow.Redis.{Texts, TextLaws, Reply, ok, err}
use bdopsflow.Election.{Bytes, LeaderElection, tick, step_down, value_for}
use bdopsflow.Election.Leadership.{Answers, tick_exclusive}
use bdopsflow.Election.KeyRelease.{step_down-key}
use bdopsflow.Election.Outage.{Fails, ticks_on, ticks_on_leads}
use bdopsflow.Prelude.{sym, ◌∙◌}

Bytes-discrete : Discrete Bytes
Bytes-discrete = hlevel ℕ_discrete

abbrev Store : Type 0
Store = Bytes → Option Bytes

abbrev view : Store → Bytes → Option Bytes
view s k = s k

abbrev put : Bytes → Option Bytes → Store → Store
put k v s j = ite (Bytes-discrete j k) v (s j)

set_nx_at : Option Bytes → Bytes → Bytes → Store → Store × Reply Bool
set_nx_at none k v s = (put k (some v) s, ok true)
set_nx_at (some w) k v s = (s, ok false)

abbrev store : Texts Store Bytes Bytes
store = record {
  set_nx = λ k v t s. set_nx_at (s k) k v s;
  get = λ k s. ok (s k);
  expire = λ k t s. (s, ok true);
  del = λ k s. (put k none s, ok 1);
}

put_here : (k : Bytes) (v : Option Bytes) (s : Store) → put k v s k ≡ v
put_here k v s = ground arith

put_elsewhere : (k j : Bytes) (v : Option Bytes) (s : Store) → j ≢ k → put k v s j ≡ s j
put_elsewhere k j v s h = ground arith

won :
    (o : Option Bytes) (k v : Bytes) (s : Store)
    → (set_nx_at o k v s).1 ≡ ok true
    → (o ≡ none) × ((set_nx_at o k v s).0 k ≡ some v)
unfolding set_nx_at
won none k v s h = (refl, put_here k (some v) s)
won (some w) k v s h = cc

lost :
    (o : Option Bytes) (k v : Bytes) (s : Store)
    → (set_nx_at o k v s).1 ≡ ok false
    → (o ≢ none) × ((set_nx_at o k v s).0 k ≡ s k)
unfolding set_nx_at
lost none k v s h = cc
lost (some w) k v s h = (λ e. cc, refl)

kept_elsewhere :
    (o : Option Bytes) (k j v : Bytes) (s : Store) → j ≢ k → (set_nx_at o k v s).0 j ≡ s j
unfolding set_nx_at
kept_elsewhere none k j v s h = put_elsewhere k j (some v) s h
kept_elsewhere (some w) k j v s h = refl

replied : (o : Option Bytes) (k v : Bytes) (s : Store) → (set_nx_at o k v s).1 ≢ err
unfolding set_nx_at
replied none k v s e = cc
replied (some w) k v s e = cc

store_laws : TextLaws store view
store_laws = record {
  set_nx_won = λ k v t s h. won (s k) k v s h;
  set_nx_lost = λ k v t s h. lost (s k) k v s h;
  get_ok = λ k s o h. cc;
  expire_same = λ k j t s. refl;
  del_here = λ k s n h. put_here k none s;
  del_elsewhere = λ k j s h. put_elsewhere k j none s h;
  set_nx_elsewhere = λ k j v t s h. kept_elsewhere (s k) k j v s h;
}

store-Answers : Answers store
store-Answers = record {
  set_nx_answers = λ k v t s. replied (s k) k v s;
  get_answers = λ k s e. cc;
  expire_answers = λ k t s e. cc;
}

-- `L`, and the nodes `a` at `x` and `b` with no address.
abbrev node_a : LeaderElection
node_a = record {
  leader_key = 76 ∷ [];
  node_id = 97 ∷ [];
  http_addr = 120 ∷ [];
  ttl = 15;
  is_leader = false;
  on_acquire = true;
  on_release = true;
  consecutive_failures = 0;
  callbacks = [];
}

abbrev node_b : LeaderElection
node_b = record node_a { node_id = 98 ∷ []; http_addr = [] }

abbrev empty : Store
empty k = none

tick_exclusive_example :
    let (s', a') = tick store node_a empty in
    (a'.is_leader && (tick store node_b s').1.is_leader) ≡ false
tick_exclusive_example =
    tick_exclusive store view store_laws node_a node_b empty store-Answers refl
      ((λ e. ground arith), tt) ((λ e. ground arith), tt) (λ e. ground arith)

abbrev leading : LeaderElection
leading = record node_a { is_leader = true }

abbrev taken : Store
taken k = some (97 ∷ 124 ∷ 120 ∷ [])

step_down-key_example : (step_down store leading taken).0 (76 ∷ []) ≡ some (97 ∷ 124 ∷ 120 ∷ [])
unfolding value_for
step_down-key_example =
    step_down-key store view store_laws leading taken (λ k s e. cc) (λ k s e. cc) refl refl

abbrev outage : Texts (Unit {0}) Bytes Bytes
outage = record {
  set_nx = λ k v t s. (s, err);
  get = λ k s. err;
  expire = λ k t s. (s, err);
  del = λ k s. (s, err);
}

outage-Fails : Fails outage
outage-Fails = record { get_fails = λ k s. refl; set_nx_fails = λ k v t s. refl }

ticks_on_leads_example : (ticks_on outage (tt ∷ tt ∷ tt ∷ []) leading).is_leader ≡ false
ticks_on_leads_example =
    ticks_on_leads outage outage-Fails (tt ∷ tt ∷ tt ∷ []) leading refl (omega arith)

still_there :
    (o : Option Bytes) (k v : Bytes) (s : Store) → s k ≢ none → (set_nx_at o k v s).0 k ≢ none
unfolding set_nx_at
still_there none k v s h e = elim (some_none (sym (put_here k (some v) s) ∙ e)) [ ]
  where
    some_none : some v ≢ none
    some_none p = cc
still_there (some w) k v s h e = h e
