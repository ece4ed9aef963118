-- ===== src/Lock/Exclusion.antt =====
-- Attempts to take one lock of scheduler/pkg/lock/redis_lock.go, with keep-alives between them.
use bdopsflow.Prelude.{
  ℕ, ◌+◌, ◌≤◌, ◌≡◌, ◌≢◌, refl, sym, ap, ◌∙◌, Bool, true, false, List, [], ◌∷◌, Option, none, arith,
}
use bdopsflow.Redis
use bdopsflow.Redis.{Reply, ok, err, TextLaws}
use bdopsflow.Lock.{Bytes, RedisLock, full_key, try_lock, keep_alive, one, done}

-- Some client calls TryLock, or KeepAlive, with a time to live.
pub data Attempt : Type 0 where
  tries keeps : ℕ → Attempt

abbrev pub won : Reply Bool → ℕ
won err = 0
won (ok true) = 1
won (ok false) = 0

module _ {S : Type 0} (redis : Redis.Texts S Bytes Bytes) (view : S → Bytes → Option Bytes)
    (laws : TextLaws redis view)
    (kept : (k v : Bytes) (t : ℕ) (s : S)
      → view s k ≢ none
      → view (redis.set_nx k v t s).0 k ≢ none) where
  -- How many of the attempts are answered with true.
  pub winners : RedisLock → Bytes → List Attempt → S → ℕ
  winners l key [] s = 0
  winners l key (tries t ∷ rest) s =
      won (try_lock redis l key t s).1 + winners l key rest (try_lock redis l key t s).0
  winners l key (keeps t ∷ rest) s = winners l key rest (keep_alive redis l key t s).0

  won_held :
      (k v : Bytes) (t : ℕ) (s : S) (r : Reply Bool)
      → view s k ≢ none
      → (redis.set_nx k v t s).1 ≡ r
      → won r ≡ 0
  won_held k v t s err h e = refl
  won_held k v t s (ok true) h e = elim (h (laws.set_nx_won k v t s e).0) [ ]
  won_held k v t s (ok false) h e = refl

  keep_alive-view :
      (l : RedisLock) (key : Bytes) (t : ℕ) (s : S)
      → view (keep_alive redis l key t s).0 (full_key l key) ≡ view s (full_key l key)
  unfolding keep_alive done
  keep_alive-view l key t s = by_reply (redis.expire (full_key l key) t s) refl
    where
      by_reply :
          (r : S × Reply Bool)
          → redis.expire (full_key l key) t s ≡ r
          → view (done r).0 (full_key l key) ≡ view s (full_key l key)
      by_reply (s', err) e =
          ap (λ (p : S × Reply Bool). view p.0 (full_key l key)) (sym e)
          ∙ laws.expire_same (full_key l key) (full_key l key) t s
      by_reply (s', ok b) e =
          ap (λ (p : S × Reply Bool). view p.0 (full_key l key)) (sym e)
          ∙ laws.expire_same (full_key l key) (full_key l key) t s

  winners_held :
      (l : RedisLock) (key : Bytes) (calls : List Attempt) (s : S)
      → view s (full_key l key) ≢ none
      → winners l key calls s ≡ 0
  unfolding winners try_lock
  winners_held l key [] s h = refl
  winners_held l key (tries t ∷ rest) s h =
      let w = won_held (full_key l key) one t s (redis.set_nx (full_key l key) one t s).1 h refl in
      let i =
        winners_held l key rest (redis.set_nx (full_key l key) one t s).0
          (kept (full_key l key) one t s h) in
      omega (arith, w, i)
  winners_held l key (keeps t ∷ rest) s h =
      winners_held l key rest (keep_alive redis l key t s).0
        (λ e. h (sym (keep_alive-view l key t s) ∙ e))

  -- Of any attempts to take a lock, by any clients, with keep-alives between them and neither an unlock
  -- nor an expiry, at most one is answered with true, on a server where a SET NX, also one that is
  -- answered with an error, leaves a key that is there.
  pub winners-le :
      (l : RedisLock) (key : Bytes) (calls : List Attempt) (s : S) → winners l key calls s ≤ 1
  unfolding winners try_lock
  winners-le l key [] s = omega arith
  winners-le l key (tries t ∷ rest) s =
      by_reply (winners-le l key rest (redis.set_nx (full_key l key) one t s).0)
        (redis.set_nx (full_key l key) one t s).1 refl
    where
      after : S
      after = (redis.set_nx (full_key l key) one t s).0

      by_reply :
          (winners l key rest after ≤ 1)
          → (r : Reply Bool) → (redis.set_nx (full_key l key) one t s).1 ≡ r
          → won r + winners l key rest after ≤ 1
      by_reply le err e = omega arith
      by_reply le (ok false) e = omega arith
      by_reply le (ok true) e =
          let stored = (laws.set_nx_won (full_key l key) one t s e).1 in
          omega (arith, winners_held l key rest after (λ h. cc))
  winners-le l key (keeps t ∷ rest) s = winners-le l key rest (keep_alive redis l key t s).0
