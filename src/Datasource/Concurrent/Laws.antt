-- ===== src/Datasource/Concurrent/Laws.antt =====
-- What a call does to every counter: a permit raises each of its keys by one and keeps the limits,
-- a refusal leaves all counters as they were (scheduler/internal/datasource/concurrent.go).
use bdopsflow.Prelude.{
  ℕ, ◌≡◌, refl, subst, ◌≢◌, ◌∙◌, ap, sym, false, List, [], ◌∷◌, ◌++◌, arith, Bool-cases, inl, inr,
}
use bdopsflow.Prelude.Int.{ℤ, pos, ◌+ℤ◌, ◌-ℤ◌, ◌≤ℤ◌, ltb_ℤ, +ℤ_cancel, -ℤ_zero}
use bdopsflow.Redis.{Counters, CounterLaws, Entry, JournalLaws, Reply, ok, err}
use bdopsflow.Datasource.Concurrent.{
  Key, user, global, ds, AcquireError, Result, granted, refused, Limits, Permit, touch, and_then,
  after_incr, check, acquire, acquire_for_datasource, concurrent_limit, datasource_concurrent_limit,
}
use bdopsflow.Datasource.Concurrent.Ledger.{
  times, give_back, add_add, times-append, ledger, incr_count, incr_err_count, decr_all-count,
  touch-number, touch-count,
}

module _ {S : Type 0} (redis : Counters S Key) (number : S → Key → ℤ) (entry : S → Key → Entry)
    (laws : CounterLaws redis number) (notes : JournalLaws redis entry) where
  -- What one INCR leaves behind.
  abbrev Incremented : Key → S → S × Reply ℤ → Type 0
  Incremented k s (s', err) = (j : Key) → ledger number entry s' j ≡ ledger number entry s j
  Incremented k s (s', ok n) =
      ((j : Key) → ledger number entry s' j ≡ ledger number entry s j +ℤ pos (times j (k ∷ [])))
      × (number s' k ≡ n)
      × ((j : Key) → j ≢ k → number s' j ≡ number s j)

  incr-Incremented : (k : Key) (s : S) (p : S × Reply ℤ) → redis.incr k s ≡ p → Incremented k s p
  incr-Incremented k s (s', err) e = λ j.
      ap (λ p. ledger number entry p.0 j) (sym e)
      ∙ incr_err_count redis number entry laws notes k j s (ap (λ p. p.1) e)
  incr-Incremented k s (s', ok n) e = (
    λ j.
        ap (λ p. ledger number entry p.0 j) (sym e)
        ∙ incr_count redis number entry laws notes k j s n (ap (λ p. p.1) e),
    ap (λ p. number p.0 k) (sym e)
        ∙ laws.incr_here k s n (ap (λ p. p.1) e)
        ∙ sym (laws.incr_ok k s n (ap (λ p. p.1) e)),
    λ j h. ap (λ p. number p.0 j) (sym e) ∙ laws.incr_elsewhere k j s h,
  )

  -- What a check leaves behind: its key raised and within the limit, or, refused, what was held
  -- given back.
  abbrev CheckOutcome : Key → ℤ → List Key → S → S × Result (Unit {0}) → Type 0
  CheckOutcome k max held s (s', granted _) =
      ((j : Key) → ledger number entry s' j ≡ ledger number entry s j +ℤ pos (times j (k ∷ [])))
      × (number s' k ≤ℤ max)
      × ((j : Key) → j ≢ k → number s' j ≡ number s j)
  CheckOutcome k max held s (s', refused e) =
      (j : Key) → ledger number entry s' j ≡ ledger number entry s j -ℤ pos (times j held)

  after_incr-Outcome :
      (k : Key) (max : ℤ) (e : AcquireError) (held : List Key) (s s' : S) (r : Reply ℤ)
      → Incremented k s (s', r)
      → CheckOutcome k max held s (after_incr redis k max e held (s', r))
  unfolding after_incr
  after_incr-Outcome k max e held s s' err h = λ j.
      decr_all-count redis number entry laws notes held j s'
      ∙ ap (λ a. a -ℤ pos (times j held)) (h j)
  after_incr-Outcome k max e held s s' (ok n) (raised, eq, others) =
      elim (Bool-cases (ltb_ℤ max n)) [
        | inl over ↦ rw over λ j.
            decr_all-count redis number entry laws notes (held ++ k ∷ []) j (touch redis k n s')
            ∙ ap (λ a. a -ℤ pos (times j (held ++ k ∷ [])))
                (touch-count redis number entry laws notes k j n s' ∙ raised j)
            ∙ ap (λ m. ledger number entry s j +ℤ pos (times j (k ∷ [])) -ℤ pos m)
                (times-append j held (k ∷ []))
            ∙ give_back (ledger number entry s j) (times j (k ∷ [])) (times j held)
        | inr within ↦ rw within (
          λ j. touch-count redis number entry laws notes k j n s' ∙ raised j,
          rw (touch-number redis number entry laws notes k k n s', eq) (ground arith),
          λ j h. touch-number redis number entry laws notes k j n s' ∙ others j h,
        )
      ]

  pub check-Outcome :
      (k : Key) (max : ℤ) (e : AcquireError) (held : List Key) (s : S)
      → CheckOutcome k max held s (check redis k max e held s)
  unfolding check
  check-Outcome k max e held s =
      after_incr-Outcome k max e held s (redis.incr k s).0 (redis.incr k s).1
        (incr-Incremented k s (redis.incr k s) refl)

  -- A check followed by the rest of the call: `f` runs on a grant only.
  check-bind :
      {B : Type 0} (P : S × Result B → Type 0) (k : Key) (max : ℤ) (e : AcquireError)
      (held : List Key) (s : S) (f : Unit {0} → S → S × Result B)
      → ((s' : S)
          → ((j : Key)
              → ledger number entry s' j ≡ ledger number entry s j +ℤ pos (times j (k ∷ [])))
          → number s' k ≤ℤ max
          → ((j : Key) → j ≢ k → number s' j ≡ number s j)
          → P (f tt s'))
      → ((s' : S) (x : AcquireError)
          → ((j : Key) → ledger number entry s' j ≡ ledger number entry s j -ℤ pos (times j held))
          → P (s', refused x))
      → P (and_then (check redis k max e held s) f)
  check-bind {B} P k max e held s f on_grant on_refusal =
      split (check redis k max e held s) (check-Outcome k max e held s)
    where
      split : (r : S × Result (Unit {0})) → CheckOutcome k max held s r → P (and_then r f)
      split (s', granted u) (raised, within, others) = on_grant s' raised within others
      split (s', refused x) back = on_refusal s' x back

  -- A permit raises each of its keys by one; a refused call leaves every counter as it was.
  abbrev pub Accounts : List Key → S → S × Result Permit → Type 0
  Accounts keys s (s', granted p) =
      ((j : Key) → ledger number entry s' j ≡ ledger number entry s j +ℤ pos (times j keys))
      × (p.released ≡ false)
      × (p.keys ≡ keys)
  Accounts keys s (s', refused x) = (j : Key) → ledger number entry s' j ≡ ledger number entry s j

  abbrev pub Within : Key → ℤ → S × Result Permit → Type 0
  Within k max (s', granted p) = number s' k ≤ℤ max
  Within k max (s', refused x) = Unit {0}

  -- A key that a later check does not raise keeps its limit.
  still_within :
      (j k : Key) (max : ℤ) (s s' : S)
      → j ≢ k
      → ((i : Key) → i ≢ k → number s' i ≡ number s i)
      → number s j ≤ℤ max
      → number s' j ≤ℤ max
  still_within j k max s s' n o w = subst (λ a. a ≤ℤ max) (sym (o j n)) w

  -- One more key on top of those that are held.
  raise_more :
      (held : List Key) (k j : Key) (s s' s'' : S)
      → ledger number entry s' j ≡ ledger number entry s j +ℤ pos (times j held)
      → ledger number entry s'' j ≡ ledger number entry s' j +ℤ pos (times j (k ∷ []))
      → ledger number entry s'' j ≡ ledger number entry s j +ℤ pos (times j (held ++ k ∷ []))
  raise_more held k j s s' s'' h h' =
      h'
      ∙ ap (λ a. a +ℤ pos (times j (k ∷ []))) h
      ∙ add_add (ledger number entry s j) (times j held) (times j (k ∷ []))
      ∙ ap (λ n. ledger number entry s j +ℤ pos n) (sym (times-append j held (k ∷ [])))

  -- What was raised is given back.
  pub roll_back :
      (held : List Key) (j : Key) (s s' s'' : S)
      → ledger number entry s' j ≡ ledger number entry s j +ℤ pos (times j held)
      → ledger number entry s'' j ≡ ledger number entry s' j -ℤ pos (times j held)
      → ledger number entry s'' j ≡ ledger number entry s j
  roll_back held j s s' s'' h h' =
      h'
      ∙ ap (λ a. a -ℤ pos (times j held)) h
      ∙ +ℤ_cancel (ledger number entry s j) (pos (times j held))

  -- `Acquire`, on every path: a permit counts once at the user and once globally and both counters
  -- are within their limits; after a refusal or a failed command all counters are as before, but for the
  -- DECRs that fail.
  pub acquire-Accounts :
      (l : Limits) (u : ℕ) (s : S)
      → Accounts (user u ∷ global ∷ []) s (acquire redis l u s)
        × Within (user u) l.max_per_user (acquire redis l u s)
        × Within global l.max_global (acquire redis l u s)
  unfolding acquire
  acquire-Accounts l u s =
      check-bind P (user u) l.max_per_user concurrent_limit [] s _
        (λ s₁ r₁ w₁ o₁.
          check-bind P global l.max_global concurrent_limit (user u ∷ []) s₁ _
            (λ s₂ r₂ w₂ o₂. (
              (λ j. raise_more (user u ∷ []) global j s s₁ s₂ (r₁ j) (r₂ j), refl, refl),
              still_within (user u) global l.max_per_user s₁ s₂ (λ e. cc) o₂ w₁,
              w₂,
            ))
            (λ s₂ x b₂. (λ j. roll_back (user u ∷ []) j s s₁ s₂ (r₁ j) (b₂ j), tt, tt)))
        (λ s₁ x b₁. (λ j. b₁ j ∙ -ℤ_zero (ledger number entry s j), tt, tt))
    where
      P : S × Result Permit → Type 0
      P r =
          Accounts (user u ∷ global ∷ []) s r
          × Within (user u) l.max_per_user r
          × Within global l.max_global r

  -- `AcquireForDatasource`, on every path: a permit counts once at the user, once globally and once
  -- at the datasource and the three counters are within their limits; after a refusal or a failed
  -- command every counter is as before, but for one more for each DECR on it that failed. An INCR that
  -- fails is one that is not carried out, and no key expires during a call.
  pub acquire_for_datasource-Accounts :
      (l : Limits) (u d : ℕ) (s : S)
      → Accounts (user u ∷ global ∷ ds d ∷ []) s (acquire_for_datasource redis l u d s)
        × Within (user u) l.max_per_user (acquire_for_datasource redis l u d s)
        × Within global l.max_global (acquire_for_datasource redis l u d s)
        × Within (ds d) l.max_per_datasource (acquire_for_datasource redis l u d s)
  unfolding acquire_for_datasource
  acquire_for_datasource-Accounts l u d s =
      check-bind P (user u) l.max_per_user concurrent_limit [] s _
        (λ s₁ r₁ w₁ o₁.
          check-bind P global l.max_global concurrent_limit (user u ∷ []) s₁ _
            (λ s₂ r₂ w₂ o₂.
              check-bind P (ds d) l.max_per_datasource datasource_concurrent_limit held s₂ _
                (λ s₃ r₃ w₃ o₃. (
                  (
                    λ j. raise_more held (ds d) j s s₂ s₃ (both s₁ s₂ j (r₁ j) (r₂ j)) (r₃ j),
                    refl,
                    refl,
                  ),
                  still_within (user u) (ds d) l.max_per_user s₂ s₃ (λ e. cc) o₃
                      (still_within (user u) global l.max_per_user s₁ s₂ (λ e. cc) o₂ w₁),
                  still_within global (ds d) l.max_global s₂ s₃ (λ e. cc) o₃ w₂,
                  w₃,
                ))
                (λ s₃ x b₃.
                  (λ j. roll_back held j s s₂ s₃ (both s₁ s₂ j (r₁ j) (r₂ j)) (b₃ j), tt, tt, tt)))
            (λ s₂ x b₂. (λ j. roll_back (user u ∷ []) j s s₁ s₂ (r₁ j) (b₂ j), tt, tt, tt)))
        (λ s₁ x b₁. (λ j. b₁ j ∙ -ℤ_zero (ledger number entry s j), tt, tt, tt))
    where
      P : S × Result Permit → Type 0
      P r =
          Accounts (user u ∷ global ∷ ds d ∷ []) s r
          × Within (user u) l.max_per_user r
          × Within global l.max_global r
          × Within (ds d) l.max_per_datasource r

      held : List Key
      held = user u ∷ global ∷ []

      both :
          (s₁ s₂ : S) (j : Key)
          → ledger number entry s₁ j ≡ ledger number entry s j +ℤ pos (times j (user u ∷ []))
          → ledger number entry s₂ j ≡ ledger number entry s₁ j +ℤ pos (times j (global ∷ []))
          → ledger number entry s₂ j ≡ ledger number entry s j +ℤ pos (times j held)
      both s₁ s₂ j = raise_more (user u ∷ []) global j s s₁ s₂
