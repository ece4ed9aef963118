-- ===== src/Datasource/Concurrent.antt =====
-- scheduler/internal/datasource/concurrent.go. The limits of the running queries are counters in
-- Redis. The three kinds of key, "datasource:query:concurrent:user:%d", "…:global" and "…:ds:%d",
-- are the constructors of `Key`; ids are natural numbers, counts are integers. One call is one
-- sequence of commands; a permit is the closure that the call returns, with its flag `released`.
pub mod Ledger
pub mod Laws
pub mod Lapses
pub mod Release
pub mod Calibration
pub mod Clients
pub mod Histories
use bdopsflow.Prelude.{
  ℕ, Bool, true, false, List, [], ◌∷◌, Option, none, some, if◌then◌else◌, ◌==◌, ◌++◌,
}
use bdopsflow.Prelude.Int.{ℤ, pos, negsuc, ltb_ℤ}
use bdopsflow.Redis.{Counters, Reply, ok, err}

pub data Key : Type 0 where
  user : ℕ → Key
  global : Key
  ds : ℕ → Key

pub data AcquireError : Type 0 where
  check_error concurrent_limit datasource_concurrent_limit : AcquireError

pub data Result (A : Type 0) : Type 0 where
  granted : A → Result A
  refused : AcquireError → Result A

-- The cached limits.
pub record Limits : Type 0 where
  pub max_per_user : ℤ
  pub max_global : ℤ
  pub max_per_datasource : ℤ

or_default : ℤ → ℕ → ℤ
or_default (pos n) d = if n == 0 then pos d else pos n
or_default (negsuc n) d = pos d

-- The values read from the system configuration, those that are not positive replaced.
unfoldable pub refresh_runtime_config : Limits → Limits
unfolding or_default
refresh_runtime_config c = record {
  max_per_user = or_default c.max_per_user 5;
  max_global = or_default c.max_global 50;
  max_per_datasource = or_default c.max_per_datasource 10;
}

-- The keys that the closure decrements, and its flag.
pub record Permit : Type 0 where
  pub keys : List Key
  pub released : Bool

-- 5 minutes, in seconds.
abbrev pub counter_ttl : ℕ
counter_ttl = 300

abbrev pub eq_ℤ : ℤ → ℤ → Bool
eq_ℤ (pos a) (pos b) = a == b
eq_ℤ (negsuc a) (negsuc b) = a == b
eq_ℤ (pos _) (negsuc _) = false
eq_ℤ (negsuc _) (pos _) = false

unfoldable pub is_one : ℤ → Bool
is_one (pos n) = n == 1
is_one (negsuc n) = false

-- The numbers by user and by datasource, as the loops of `calibrateCounters` spell their keys.
abbrev pub user_keys : List (ℕ × ℕ) → List (Key × ℕ)
user_keys [] = []
user_keys ((u, n) ∷ rest) = (user u, n) ∷ user_keys rest

abbrev pub ds_keys : List (ℕ × ℕ) → List (Key × ℕ)
ds_keys [] = []
ds_keys ((d, n) ∷ rest) = (ds d, n) ∷ ds_keys rest

-- A chain of commands: the server's state is passed on, and the first refusal ends the call.
abbrev pub M : Type 0 → Type 0 → Type 0
M S A = S → S × Result A

abbrev pub and_then : {S A B : Type 0} → S × Result A → (A → M S B) → S × Result B
and_then (s, granted a) f = f a s
and_then (s, refused e) f = (s, refused e)

infixl 5 ◌>>=◌ ◌>>◌
abbrev pub ◌>>=◌ : {S A B : Type 0} → M S A → (A → M S B) → M S B
◌>>=◌ m f s = and_then (m s) f

abbrev pub ◌>>◌ : {S B : Type 0} → M S (Unit {0}) → M S B → M S B
m >> k = m >>= λ _. k

module _ {S : Type 0} (redis : Counters S Key) where
  unfoldable pub decr_all : List Key → S → S
  decr_all [] s = s
  decr_all (k ∷ ks) s = decr_all ks (redis.decr k s).0

  -- `if count == 1 { Expire }`.
  unfoldable pub touch : Key → ℤ → S → S
  unfolding is_one
  touch k n s = if is_one n then (redis.expire k counter_ttl s).0 else s

  -- The check of one key after its INCR. `held` are the keys raised before it.
  unfoldable pub after_incr :
      Key → ℤ → AcquireError → List Key → S × Reply ℤ → S × Result (Unit {0})
  after_incr k max too_many held (s, err) = (decr_all held s, refused check_error)
  after_incr k max too_many held (s, ok n) =
      let s' = touch k n s in
      if ltb_ℤ max n then (decr_all (held ++ k ∷ []) s', refused too_many) else (s', granted tt)

  unfoldable pub check : Key → ℤ → AcquireError → List Key → M S (Unit {0})
  check k max too_many held s = after_incr k max too_many held (redis.incr k s)

  grant : List Key → M S Permit
  grant keys s = (s, granted (record { keys = keys; released = false }))

  unfoldable pub acquire : Limits → ℕ → M S Permit
  unfolding grant
  acquire l user_id = do
    check (user user_id) l.max_per_user concurrent_limit []
    check global l.max_global concurrent_limit (user user_id ∷ [])
    grant (user user_id ∷ global ∷ [])

  unfoldable pub acquire_for_datasource : Limits → ℕ → ℕ → M S Permit
  unfolding grant
  acquire_for_datasource l user_id datasource_id = do
    check (user user_id) l.max_per_user concurrent_limit []
    check global l.max_global concurrent_limit (user user_id ∷ [])
    check (ds datasource_id) l.max_per_datasource datasource_concurrent_limit
        (user user_id ∷ global ∷ [])
    grant (user user_id ∷ global ∷ ds datasource_id ∷ [])

  -- The closure that `Acquire` returns.
  unfoldable pub release : Permit → S → S × Permit
  release p s = if p.released then (s, p) else (decr_all p.keys s, record p { released = true })

  -- One key of `calibrateCounters`: what is read is compared with the actual number.
  correct : Key → ℕ → ℤ → S → S
  correct k actual n s =
      if eq_ℤ n (pos actual)
      then s
      else if actual == 0
      then (redis.del k s).0
      else (redis.set k (pos actual) counter_ttl s).0

  calibrate_reply : Key → ℕ → Reply (Option ℤ) → S → S
  calibrate_reply k actual err s = s
  calibrate_reply k actual (ok none) s = correct k actual (pos 0) s
  calibrate_reply k actual (ok (some n)) s = correct k actual n s

  pub calibrate_key : Key → ℕ → S → S
  calibrate_key k actual s = calibrate_reply k actual (redis.get k s) s

  pub calibrate_all : List (Key × ℕ) → S → S
  calibrate_all [] s = s
  calibrate_all ((k, n) ∷ rest) s = calibrate_all rest (calibrate_key k n s)

  -- The actual numbers come from the running queries: those of the users, all, those of the
  -- datasources.
  unfoldable pub calibrate_counters : List (ℕ × ℕ) → ℕ → List (ℕ × ℕ) → S → S
  calibrate_counters users total datasources s =
      calibrate_all (ds_keys datasources)
        (calibrate_key global total (calibrate_all (user_keys users) s))
