-- ===== src/Datasource/Concurrent/Ledger.antt =====
-- What a counter stands for: its number with what it lost by expiring, less the DECRs on it that failed
-- (scheduler/internal/datasource/concurrent.go).
use native.Mathlib.Decide.{ℕ_discrete}
use mathlib.Core.Logic.{ite}
use bdopsflow.Prelude.{
  ℕ, suc, ◌+◌, ◌≡◌, refl, ◌≢◌, ◌∙◌, ap, sym, List, [], ◌∷◌, ◌++◌, arith, Bool-cases, inl, inr,
}
use bdopsflow.Prelude.Int.{ℤ, pos, negsuc, ◌+ℤ◌, ◌-ℤ◌, ◌≤ℤ◌, +ℤ_zero, -ℤ_zero}
use bdopsflow.Redis.{Counters, CounterLaws, Entry, lapse, JournalLaws, Reply, ok, err}
use bdopsflow.Datasource.Concurrent.{Key, decr_all, touch, is_one}

unfoldable pub Key-discrete : Discrete Key
Key-discrete = hlevel ℕ_discrete

-- How often a key stands in a list.
abbrev pub times : Key → List Key → ℕ
times j [] = 0
times j (k ∷ ks) = ite (Key-discrete j k) 1 0 + times j ks

sub_sub : (a : ℤ) (m n : ℕ) → a -ℤ pos m -ℤ pos n ≡ a -ℤ pos (m + n)
unfolding ◌-ℤ◌
sub_sub a m n = ground arith

pub give_back : (a : ℤ) (t h : ℕ) → a +ℤ pos t -ℤ pos (h + t) ≡ a -ℤ pos h
unfolding ◌+ℤ◌ ◌-ℤ◌
give_back a t h = ground arith

pub add_add : (a : ℤ) (m n : ℕ) → a +ℤ pos m +ℤ pos n ≡ a +ℤ pos (m + n)
unfolding ◌+ℤ◌
add_add a m n = ground arith

pub times-append : (j : Key) (ks ls : List Key) → times j (ks ++ ls) ≡ times j ks + times j ls
times-append j [] ls = omega arith
times-append j (k ∷ ks) ls = omega (arith, times-append j ks ls)

pub times_self : (k : Key) → times k (k ∷ []) ≡ 1
times_self k = ground arith

pub times_other : (j k : Key) → j ≢ k → times j (k ∷ []) ≡ 0
times_other j k h = ground arith

-- A counter's number with what it lost by expiring, less the DECRs on it that failed: what it would say
-- if every DECR were carried out and no key expired.
unfoldable pub net : ℤ → Entry → ℤ
net a e = a +ℤ pos e.lapsed -ℤ pos (e.missed + e.overdrawn)

add_swap : (a : ℤ) (m n : ℕ) → a +ℤ pos m +ℤ pos n ≡ a +ℤ pos n +ℤ pos m
add_swap a m n = add_add a m n ∙ ap (λ k. a +ℤ pos k) (omega arith) ∙ sym (add_add a n m)

sub_swap : (a : ℤ) (m n : ℕ) → a -ℤ pos m -ℤ pos n ≡ a -ℤ pos n -ℤ pos m
sub_swap a m n = sub_sub a m n ∙ ap (λ k. a -ℤ pos k) (omega arith) ∙ sym (sub_sub a n m)

add_sub : (a : ℤ) (m n : ℕ) → a +ℤ pos m -ℤ pos n ≡ a -ℤ pos n +ℤ pos m
unfolding ◌+ℤ◌ ◌-ℤ◌
add_sub a m n = ground arith

pub net_add : (a : ℤ) (t : ℕ) (e : Entry) → net (a +ℤ pos t) e ≡ net a e +ℤ pos t
unfolding net
net_add a t e =
    ap (λ b. b -ℤ pos (e.missed + e.overdrawn)) (add_swap a t e.lapsed)
    ∙ add_sub (a +ℤ pos e.lapsed) t (e.missed + e.overdrawn)

net_sub : (a : ℤ) (t : ℕ) (e : Entry) → net (a -ℤ pos t) e ≡ net a e -ℤ pos t
unfolding net
net_sub a t e =
    ap (λ b. b -ℤ pos (e.missed + e.overdrawn)) (sym (add_sub a e.lapsed t))
    ∙ sub_swap (a +ℤ pos e.lapsed) t (e.missed + e.overdrawn)

net_missed : (a : ℤ) (e : Entry) → net a (record e { missed = suc e.missed }) ≡ net a e -ℤ pos 1
unfolding net ◌+ℤ◌ ◌-ℤ◌
net_missed a e = ground arith

pub net-lapse : (a : ℤ) (e : Entry) → net (pos 0) (lapse a e) ≡ net a e
unfolding net lapse ◌+ℤ◌ ◌-ℤ◌
net-lapse (pos n) e = ground arith
net-lapse (negsuc n) e = ground arith

-- Without the failed DECRs a number is no smaller than what it stands for, but for what has lapsed.
pub net_le : (a max : ℤ) (e : Entry) → a ≤ℤ max → net a e ≤ℤ max +ℤ pos e.lapsed
unfolding net ◌+ℤ◌ ◌-ℤ◌
net_le a max e h = ground arith

unfoldable pub ledger : {S : Type 0} → (S → Key → ℤ) → (S → Key → Entry) → S → Key → ℤ
ledger number entry s j = net (number s j) (entry s j)

module _ {S : Type 0} (redis : Counters S Key) (number : S → Key → ℤ) (entry : S → Key → Entry)
    (laws : CounterLaws redis number) (notes : JournalLaws redis entry) where
  incr_number :
      (k j : Key) (s : S) (n : ℤ)
      → (redis.incr k s).1 ≡ ok n
      → number (redis.incr k s).0 j ≡ number s j +ℤ pos (times j (k ∷ []))
  incr_number k j s n e = elim (Key-discrete j k) [
    | yes p ↦ rw p (laws.incr_here k s n e ∙ ap (λ m. number s k +ℤ pos m) (sym (times_self k)))
    | no p ↦
        laws.incr_elsewhere k j s p
        ∙ sym (+ℤ_zero (number s j))
        ∙ ap (λ m. number s j +ℤ pos m) (sym (times_other j k p))
  ]

  pub incr_count :
      (k j : Key) (s : S) (n : ℤ)
      → (redis.incr k s).1 ≡ ok n
      → ledger number entry (redis.incr k s).0 j ≡ ledger number entry s j +ℤ pos (times j (k ∷ []))
  unfolding ledger
  incr_count k j s n e =
      ap (net (number (redis.incr k s).0 j)) (notes.incr_entry k j s)
      ∙ ap (λ a. net a (entry s j)) (incr_number k j s n e)
      ∙ net_add (number s j) (times j (k ∷ [])) (entry s j)

  pub incr_err_count :
      (k j : Key) (s : S)
      → (redis.incr k s).1 ≡ err
      → ledger number entry (redis.incr k s).0 j ≡ ledger number entry s j
  unfolding ledger
  incr_err_count k j s e =
      ap (net (number (redis.incr k s).0 j)) (notes.incr_entry k j s)
      ∙ ap (λ a. net a (entry s j)) unchanged
    where
      unchanged : number (redis.incr k s).0 j ≡ number s j
      unchanged = elim (Key-discrete j k) [
        | yes p ↦ rw p (laws.incr_err k s e)
        | no p ↦ laws.incr_elsewhere k j s p
      ]

  -- A DECR lowers the ledger by one, whether or not it is carried out.
  decr_here :
      (k : Key) (s : S)
      → ledger number entry (redis.decr k s).0 k ≡ ledger number entry s k -ℤ pos 1
  unfolding ledger
  decr_here k s = by_reply (redis.decr k s).1 refl
    where
      by_reply :
          (r : Reply ℤ)
          → (redis.decr k s).1 ≡ r
          → net (number (redis.decr k s).0 k) (entry (redis.decr k s).0 k)
            ≡ net (number s k) (entry s k) -ℤ pos 1
      by_reply (ok n) h =
          ap (net (number (redis.decr k s).0 k)) (notes.decr_ok_entry k s n h)
          ∙ ap (λ a. net a (entry s k)) (laws.decr_ok k s n h)
          ∙ net_sub (number s k) 1 (entry s k)
      by_reply err h =
          ap (net (number (redis.decr k s).0 k)) (notes.decr_err_entry k s h)
          ∙ ap (λ a. net a (record (entry s k) { missed = suc (entry s k).missed }))
              (laws.decr_err k s h)
          ∙ net_missed (number s k) (entry s k)

  decr_elsewhere :
      (k j : Key) (s : S)
      → j ≢ k
      → ledger number entry (redis.decr k s).0 j ≡ ledger number entry s j
  unfolding ledger
  decr_elsewhere k j s p =
      ap (net (number (redis.decr k s).0 j)) (notes.decr_entry_elsewhere k j s p)
      ∙ ap (λ a. net a (entry s j)) (laws.decr_elsewhere k j s p)

  decr_count :
      (k j : Key) (s : S)
      → ledger number entry (redis.decr k s).0 j ≡ ledger number entry s j -ℤ pos (times j (k ∷ []))
  decr_count k j s = elim (Key-discrete j k) [
    | yes p ↦ rw p (decr_here k s ∙ ap (λ m. ledger number entry s k -ℤ pos m) (sym (times_self k)))
    | no p ↦
        decr_elsewhere k j s p
        ∙ sym (-ℤ_zero (ledger number entry s j))
        ∙ ap (λ m. ledger number entry s j -ℤ pos m) (sym (times_other j k p))
  ]

  pub decr_all-count :
      (ks : List Key) (j : Key) (s : S)
      → ledger number entry (decr_all redis ks s) j ≡ ledger number entry s j -ℤ pos (times j ks)
  unfolding decr_all
  decr_all-count [] j s = sym (-ℤ_zero (ledger number entry s j))
  decr_all-count (k ∷ ks) j s =
      decr_all-count ks j (redis.decr k s).0
      ∙ ap (λ a. a -ℤ pos (times j ks)) (decr_count k j s)
      ∙ sub_sub (ledger number entry s j) (times j (k ∷ [])) (times j ks)
      ∙ ap (λ n. ledger number entry s j -ℤ pos n) (omega arith)

  pub touch-number : (k j : Key) (n : ℤ) (s : S) → number (touch redis k n s) j ≡ number s j
  unfolding touch
  touch-number k j n s = elim (Bool-cases (is_one n)) [
    | inl e ↦ rw e (laws.expire_same k j 300 s)
    | inr e ↦ rw e
  ]

  pub touch-count :
      (k j : Key) (n : ℤ) (s : S)
      → ledger number entry (touch redis k n s) j ≡ ledger number entry s j
  unfolding touch ledger
  touch-count k j n s = elim (Bool-cases (is_one n)) [
    | inl e ↦ rw e (
        ap (net (number (redis.expire k 300 s).0 j)) (notes.expire_entry k j 300 s)
        ∙ ap (λ a. net a (entry s j)) (laws.expire_same k j 300 s))
    | inr e ↦ rw e
  ]
