-- ===== src/Datasource/Concurrent/Calibration.antt =====
-- What `calibrateCounters` does: it writes the actual number at each key that it is given, and
-- leaves the other keys alone.
use bdopsflow.Prelude.{
  ℕ, ◌≡◌, refl, ◌≢◌, ◌∙◌, List, [], ◌∷◌, arith, Bool-cases, inl, inr, ◌==◌, some, none, Option,
  true,
}
use bdopsflow.Prelude.Int.{ℤ, pos, negsuc}
use bdopsflow.Redis.{Counters, CounterLaws, Reply, ok, err}
use bdopsflow.Datasource.Concurrent.{
  Key, user, global, correct, calibrate_reply, calibrate_key, calibrate_all, calibrate_counters,
  user_keys, ds_keys, eq_ℤ,
}

eq_ℤ→eq : (a b : ℤ) → eq_ℤ a b ≡ true → a ≡ b
eq_ℤ→eq (pos a) (pos b) h = ground arith
eq_ℤ→eq (pos a) (negsuc b) h = cc
eq_ℤ→eq (negsuc a) (pos b) h = cc
eq_ℤ→eq (negsuc a) (negsuc b) h = ground arith

-- A key that a list of numbers does not name.
abbrev pub NotIn : Key → List (Key × ℕ) → Type 0
NotIn j [] = Unit {0}
NotIn j ((k, n) ∷ ps) = (j ≢ k) × NotIn j ps

-- The keys of a map are distinct.
abbrev pub Distinct : List (Key × ℕ) → Type 0
Distinct [] = Unit {0}
Distinct ((k, n) ∷ ps) = NotIn k ps × Distinct ps

module _ {S : Type 0} (redis : Counters S Key) (count : S → Key → ℤ)
    (laws : CounterLaws redis count) where
  abbrev pub Holds : S → List (Key × ℕ) → Type 0
  Holds s [] = Unit {0}
  Holds s ((k, n) ∷ ps) = (count s k ≡ pos n) × Holds s ps

  correct-count :
      (k : Key) (a : ℕ) (n : ℤ) (s : S) → count s k ≡ n → count (correct redis k a n s) k ≡ pos a
  unfolding correct
  correct-count k a n s h = elim (Bool-cases (eq_ℤ n (pos a))) [
    | inl same ↦ rw same (h ∙ eq_ℤ→eq n (pos a) same)
    | inr differs ↦ elim (Bool-cases (a == 0)) [
      | inl zero_now ↦ rw (differs, zero_now) (laws.del_here k s ∙ ground arith)
      | inr some_now ↦ rw (differs, some_now) (laws.set_here k (pos a) 300 s)
    ]
  ]

  correct-elsewhere :
      (k j : Key) (a : ℕ) (n : ℤ) (s : S) → j ≢ k → count (correct redis k a n s) j ≡ count s j
  unfolding correct
  correct-elsewhere k j a n s h = elim (Bool-cases (eq_ℤ n (pos a))) [
    | inl same ↦ rw same
    | inr differs ↦ elim (Bool-cases (a == 0)) [
      | inl zero_now ↦ rw (differs, zero_now) (laws.del_elsewhere k j s h)
      | inr some_now ↦ rw (differs, some_now) (laws.set_elsewhere k j (pos a) 300 s h)
    ]
  ]

  reply-count :
      (k : Key) (a : ℕ) (s : S) (r : Reply (Option ℤ))
      → redis.get k s ≡ r
      → r ≢ err
      → count (calibrate_reply redis k a r s) k ≡ pos a
  unfolding calibrate_reply
  reply-count k a s err e h = absurd (h refl)
  reply-count k a s (ok none) e h = correct-count k a (pos 0) s (laws.get_none k s e)
  reply-count k a s (ok (some n)) e h = correct-count k a n s (laws.get_ok k s n e)

  reply-elsewhere :
      (k j : Key) (a : ℕ) (s : S) (r : Reply (Option ℤ))
      → j ≢ k
      → count (calibrate_reply redis k a r s) j ≡ count s j
  unfolding calibrate_reply
  reply-elsewhere k j a s err h = refl
  reply-elsewhere k j a s (ok none) h = correct-elsewhere k j a (pos 0) s h
  reply-elsewhere k j a s (ok (some n)) h = correct-elsewhere k j a n s h

  calibrate_all-elsewhere :
      (j : Key) (ps : List (Key × ℕ)) (s : S)
      → NotIn j ps
      → count (calibrate_all redis ps s) j ≡ count s j
  unfolding calibrate_all calibrate_key
  calibrate_all-elsewhere j [] s h = refl
  calibrate_all-elsewhere j ((k, n) ∷ ps) s (h, hs) =
      calibrate_all-elsewhere j ps (calibrate_key redis k n s) hs
      ∙ reply-elsewhere k j n s (redis.get k s) h

  module _ (readable : (k : Key) (s : S) → redis.get k s ≢ err) where
    calibrate_all-Holds :
        (ps : List (Key × ℕ)) (s : S) → Distinct ps → Holds (calibrate_all redis ps s) ps
    unfolding calibrate_all calibrate_key
    calibrate_all-Holds [] s d = tt
    calibrate_all-Holds ((k, n) ∷ ps) s (fresh, d) = (
      calibrate_all-elsewhere k ps (calibrate_key redis k n s) fresh
          ∙ reply-count k n s (redis.get k s) refl (readable k s),
      calibrate_all-Holds ps (calibrate_key redis k n s) d,
    )

user_not_ds : (u : ℕ) (dss : List (ℕ × ℕ)) → NotIn (user u) (ds_keys dss)
user_not_ds u [] = tt
user_not_ds u ((d, n) ∷ dss) = (λ e. cc, user_not_ds u dss)

global_not_ds : (dss : List (ℕ × ℕ)) → NotIn global (ds_keys dss)
global_not_ds [] = tt
global_not_ds ((d, n) ∷ dss) = (λ e. cc, global_not_ds dss)

module _ {S : Type 0} (redis : Counters S Key) (count : S → Key → ℤ)
    (laws : CounterLaws redis count) where
  calibrate_key-elsewhere :
      (k j : Key) (n : ℕ) (s : S) → j ≢ k → count (calibrate_key redis k n s) j ≡ count s j
  unfolding calibrate_key
  calibrate_key-elsewhere k j n s h = reply-elsewhere redis count laws k j n s (redis.get k s) h

  users-keep :
      (us : List (ℕ × ℕ)) (s s' : S)
      → ((u : ℕ) → count s' (user u) ≡ count s (user u))
      → Holds redis count laws s (user_keys us)
      → Holds redis count laws s' (user_keys us)
  users-keep [] s s' h v = tt
  users-keep ((u, n) ∷ us) s s' h (v, vs) = (h u ∙ v, users-keep us s s' h vs)

  -- Where every counter can be read, calibration writes the actual number at each user and each
  -- datasource that it is given, and the actual total.
  pub calibrate_counters-Holds :
      (users dss : List (ℕ × ℕ)) (total : ℕ) (s : S)
      → ((k : Key) (s : S) → redis.get k s ≢ err)
      → Distinct (user_keys users)
      → Distinct (ds_keys dss)
      → let s' = calibrate_counters redis users total dss s in
        Holds redis count laws s' (user_keys users)
        × (count s' global ≡ pos total)
        × Holds redis count laws s' (ds_keys dss)
  unfolding calibrate_counters calibrate_key
  calibrate_counters-Holds users dss total s readable du dd =
      let s₁ : S = calibrate_all redis (user_keys users) s in
      let s₂ : S = calibrate_key redis global total s₁ in
      (
        users-keep users s₁ (calibrate_all redis (ds_keys dss) s₂)
            (λ u.
              calibrate_all-elsewhere redis count laws (user u) (ds_keys dss) s₂ (user_not_ds u dss)
              ∙ calibrate_key-elsewhere global (user u) total s₁ (λ e. cc))
            (calibrate_all-Holds redis count laws readable (user_keys users) s du),
        calibrate_all-elsewhere redis count laws global (ds_keys dss) s₂ (global_not_ds dss)
            ∙ reply-count redis count laws global total s₁ (redis.get global s₁) refl
                (readable global s₁),
        calibrate_all-Holds redis count laws readable (ds_keys dss) s₂ dd,
      )

  -- A user whom the actual numbers do not name keeps the counter that Redis has, right or wrong.
  pub calibrate_counters-unnamed :
      (users dss : List (ℕ × ℕ)) (total u : ℕ) (s : S)
      → NotIn (user u) (user_keys users)
      → count (calibrate_counters redis users total dss s) (user u) ≡ count s (user u)
  unfolding calibrate_counters
  calibrate_counters-unnamed users dss total u s h =
      let s₁ : S = calibrate_all redis (user_keys users) s in
      calibrate_all-elsewhere redis count laws (user u) (ds_keys dss)
        (calibrate_key redis global total s₁) (user_not_ds u dss)
      ∙ calibrate_key-elsewhere global (user u) total s₁ (λ e. cc)
      ∙ calibrate_all-elsewhere redis count laws (user u) (user_keys users) s h
