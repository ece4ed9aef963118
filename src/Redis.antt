-- ===== src/Redis.antt =====
-- The Redis server, which the scheduler reaches through github.com/redis/go-redis: a parameter of
-- the models that use it. An interface has the commands that the code sends, over a state `S`, and
-- a second record has what the Redis documentation says of them. `err` is a failed command; a law
-- about a failed command is stated where a theorem needs it.
use bdopsflow.Prelude.{ℕ, suc, ◌+◌, ◌⊎◌, ◌≡◌, ◌≢◌, Bool, true, false, Option, none, some}
use bdopsflow.Prelude.Int.{ℤ, pos, negsuc, ◌+ℤ◌, ◌-ℤ◌}

pub data Reply (A : Type 0) : Type 0 where
  ok : A → Reply A
  err : Reply A

-- The commands on counters: INCR, DECR, GET read as an integer, EXPIRE, SET and DEL.
pub record Counters (S K : Type 0) : Type 0 where
  pub incr : K → S → S × Reply ℤ
  pub decr : K → S → S × Reply ℤ
  pub get : K → S → Reply (Option ℤ)
  pub expire : K → ℕ → S → S × Reply Bool
  pub set : K → ℤ → ℕ → S → S × Reply (Unit {0})
  pub del : K → S → S × Reply ℤ

-- `count s k` is the number at `k`; a key that is not there counts as 0, as INCR and DECR have it.
pub record CounterLaws {S K : Type 0} (r : Counters S K) (count : S → K → ℤ) : Type 0 where
  pub incr_ok : (k : K) (s : S) (n : ℤ) → (r.incr k s).1 ≡ ok n → n ≡ count s k +ℤ pos 1
  pub incr_here :
      (k : K) (s : S) (n : ℤ) → (r.incr k s).1 ≡ ok n → count (r.incr k s).0 k ≡ count s k +ℤ pos 1
  pub incr_elsewhere : (k j : K) (s : S) → j ≢ k → count (r.incr k s).0 j ≡ count s j
  -- A command that fails is one that the server has not carried out.
  pub incr_err : (k : K) (s : S) → (r.incr k s).1 ≡ err → count (r.incr k s).0 k ≡ count s k
  pub decr_ok :
      (k : K) (s : S) (n : ℤ) → (r.decr k s).1 ≡ ok n → count (r.decr k s).0 k ≡ count s k -ℤ pos 1
  pub decr_err : (k : K) (s : S) → (r.decr k s).1 ≡ err → count (r.decr k s).0 k ≡ count s k
  pub decr_elsewhere : (k j : K) (s : S) → j ≢ k → count (r.decr k s).0 j ≡ count s j
  -- Setting a time to live changes no number.
  pub expire_same : (k j : K) (n : ℕ) (s : S) → count (r.expire k n s).0 j ≡ count s j
  pub get_ok : (k : K) (s : S) (n : ℤ) → r.get k s ≡ ok (some n) → count s k ≡ n
  pub get_none : (k : K) (s : S) → r.get k s ≡ ok none → count s k ≡ pos 0
  pub set_here : (k : K) (n : ℤ) (t : ℕ) (s : S) → count (r.set k n t s).0 k ≡ n
  pub set_elsewhere :
      (k j : K) (n : ℤ) (t : ℕ) (s : S) → j ≢ k → count (r.set k n t s).0 j ≡ count s j
  pub del_here : (k : K) (s : S) → count (r.del k s).0 k ≡ pos 0
  pub del_elsewhere : (k j : K) (s : S) → j ≢ k → count (r.del k s).0 j ≡ count s j

-- What has happened to a key: the DECRs on it that failed, and what it lost as it expired, where its
-- number was above 0 and where it was below.
pub record Entry : Type 0 where
  pub missed : ℕ
  pub lapsed : ℕ
  pub overdrawn : ℕ

abbrev pub no_entry : Entry
no_entry = record { missed = 0; lapsed = 0; overdrawn = 0 }

unfoldable pub lapse : ℤ → Entry → Entry
lapse (pos n) e = record e { lapsed = e.lapsed + n }
lapse (negsuc n) e = record e { overdrawn = e.overdrawn + suc n }

-- A journal of the failed DECRs; the commands themselves let no key expire.
pub record JournalLaws {S K : Type 0} (r : Counters S K) (entry : S → K → Entry) : Type 0 where
  pub incr_entry : (k j : K) (s : S) → entry (r.incr k s).0 j ≡ entry s j
  pub expire_entry : (k j : K) (n : ℕ) (s : S) → entry (r.expire k n s).0 j ≡ entry s j
  pub decr_ok_entry :
      (k : K) (s : S) (n : ℤ) → (r.decr k s).1 ≡ ok n → entry (r.decr k s).0 k ≡ entry s k
  pub decr_err_entry :
      (k : K) (s : S)
      → (r.decr k s).1 ≡ err
      → entry (r.decr k s).0 k ≡ record (entry s k) { missed = suc (entry s k).missed }
  pub decr_entry_elsewhere : (k j : K) (s : S) → j ≢ k → entry (r.decr k s).0 j ≡ entry s j

-- Time passes: each key stays as it is, or it expires.
pub record PassLaws {S K : Type 0} (pass : S → S) (count : S → K → ℤ) (entry : S → K → Entry)
    : Type 0 where
  pub passes :
      (j : K) (s : S)
      → ((count (pass s) j ≡ count s j) × (entry (pass s) j ≡ entry s j))
        ⊎ ((count (pass s) j ≡ pos 0) × (entry (pass s) j ≡ lapse (count s j) (entry s j)))

-- The commands on texts: SET NX with a time to live, GET, EXPIRE and DEL.
pub record Texts (S K V : Type 0) : Type 0 where
  pub set_nx : K → V → ℕ → S → S × Reply Bool
  pub get : K → S → Reply (Option V)
  pub expire : K → ℕ → S → S × Reply Bool
  pub del : K → S → S × Reply ℕ

-- `view s k` is what is stored at `k`.
pub record TextLaws {S K V : Type 0} (r : Texts S K V) (view : S → K → Option V) : Type 0 where
  pub set_nx_won :
      (k : K) (v : V) (t : ℕ) (s : S)
      → (r.set_nx k v t s).1 ≡ ok true
      → (view s k ≡ none) × (view (r.set_nx k v t s).0 k ≡ some v)
  pub set_nx_lost :
      (k : K) (v : V) (t : ℕ) (s : S)
      → (r.set_nx k v t s).1 ≡ ok false
      → (view s k ≢ none) × (view (r.set_nx k v t s).0 k ≡ view s k)
  pub get_ok : (k : K) (s : S) (o : Option V) → r.get k s ≡ ok o → view s k ≡ o
  pub expire_same : (k j : K) (t : ℕ) (s : S) → view (r.expire k t s).0 j ≡ view s j
  pub del_here : (k : K) (s : S) (n : ℕ) → (r.del k s).1 ≡ ok n → view (r.del k s).0 k ≡ none
  pub del_elsewhere : (k j : K) (s : S) → j ≢ k → view (r.del k s).0 j ≡ view s j
  pub set_nx_elsewhere :
      (k j : K) (v : V) (t : ℕ) (s : S) → j ≢ k → view (r.set_nx k v t s).0 j ≡ view s j
