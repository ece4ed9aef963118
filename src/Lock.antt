-- ===== src/Lock.antt =====
-- scheduler/pkg/lock/redis_lock.go: a lock that is a key in Redis with a time to live. The commands are
-- those of `Redis.Texts`; an error is returned with its cause, which is left out.
pub mod Exclusion
use bdopsflow.Prelude.{ℕ, Bool, List, [], ◌∷◌, ◌++◌}
use bdopsflow.Redis
use bdopsflow.Redis.{Reply, ok, err}

abbrev pub Bytes : Type 0
Bytes = List ℕ

-- `NewRedisLock` gives every lock the same prefix.
pub record RedisLock : Type 0 where
  pub prefix : Bytes

-- "bdopsflow:lock:".
unfoldable pub new_redis_lock : RedisLock
new_redis_lock = record {
  prefix =
      0x62 ∷ 0x64 ∷ 0x6f ∷ 0x70 ∷ 0x73 ∷ 0x66 ∷ 0x6c ∷ 0x6f ∷ 0x77 ∷ 0x3a ∷ 0x6c ∷ 0x6f ∷ 0x63
      ∷ 0x6b ∷ 0x3a ∷ [];
}

-- The value "1".
one : Bytes
one = 0x31 ∷ []

abbrev pub full_key : RedisLock → Bytes → Bytes
full_key l key = l.prefix ++ key

done : {A S : Type 0} → S × Reply A → S × Reply (Unit {0})
done (s, err) = (s, err)
done (s, ok a) = (s, ok tt)

module _ {S : Type 0} (redis : Redis.Texts S Bytes Bytes) where
  unfoldable pub try_lock : RedisLock → Bytes → ℕ → S → S × Reply Bool
  unfolding one
  try_lock l key ttl s = redis.set_nx (full_key l key) one ttl s

  unfoldable pub unlock : RedisLock → Bytes → S → S × Reply (Unit {0})
  unfolding done
  unlock l key s = done (redis.del (full_key l key) s)

  unfoldable pub keep_alive : RedisLock → Bytes → ℕ → S → S × Reply (Unit {0})
  unfolding done
  keep_alive l key ttl s = done (redis.expire (full_key l key) ttl s)
