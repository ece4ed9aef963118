-- ===== src/Datasource/Concurrent/Lapses.antt =====
-- No call lets a key expire: what a key has lost by expiring stays as it is until time passes
-- (scheduler/internal/datasource/concurrent.go).
use bdopsflow.Prelude.{ℕ, ◌≡◌, refl, ◌∙◌, ap, List, [], ◌∷◌, ◌++◌, Bool-cases, inl, inr}
use bdopsflow.Prelude.Int.{ℤ, ltb_ℤ}
use bdopsflow.Redis.{Counters, Entry, JournalLaws, Reply, ok, err}
use bdopsflow.Datasource.Concurrent.{
  Key, user, global, ds, AcquireError, Result, granted, refused, Limits, Permit, decr_all, touch,
  and_then, after_incr, check, acquire_for_datasource, release, is_one, concurrent_limit,
  datasource_concurrent_limit,
}
use bdopsflow.Datasource.Concurrent.Ledger.{Key-discrete}

module _ {S : Type 0} (redis : Counters S Key) (entry : S → Key → Entry)
    (notes : JournalLaws redis entry) where
  abbrev pub Same : S → S → Type 0
  Same s s' = (j : Key) → (entry s' j).lapsed ≡ (entry s j).lapsed

  decr-Same : (k : Key) (s : S) → Same s (redis.decr k s).0
  decr-Same k s j = elim (Key-discrete j k) [
    | yes p ↦ rw p (by_reply (redis.decr k s).1 refl)
    | no p ↦ ap (λ (e : Entry). e.lapsed) (notes.decr_entry_elsewhere k j s p)
  ]
    where
      by_reply :
          (r : Reply ℤ)
          → (redis.decr k s).1 ≡ r
          → (entry (redis.decr k s).0 k).lapsed ≡ (entry s k).lapsed
      by_reply (ok n) h = ap (λ (e : Entry). e.lapsed) (notes.decr_ok_entry k s n h)
      by_reply err h = ap (λ (e : Entry). e.lapsed) (notes.decr_err_entry k s h)

  decr_all-Same : (ks : List Key) (s : S) → Same s (decr_all redis ks s)
  unfolding decr_all
  decr_all-Same [] s j = refl
  decr_all-Same (k ∷ ks) s j = decr_all-Same ks (redis.decr k s).0 j ∙ decr-Same k s j

  touch-Same : (k : Key) (n : ℤ) (s : S) → Same s (touch redis k n s)
  unfolding touch
  touch-Same k n s j = elim (Bool-cases (is_one n)) [
    | inl e ↦ rw e (ap (λ (x : Entry). x.lapsed) (notes.expire_entry k j 300 s))
    | inr e ↦ rw e refl
  ]

  after_incr-Same :
      (k : Key) (max : ℤ) (e : AcquireError) (held : List Key) (r : S × Reply ℤ)
      → Same r.0 (after_incr redis k max e held r).0
  unfolding after_incr
  after_incr-Same k max e held (s, err) j = decr_all-Same held s j
  after_incr-Same k max e held (s, ok n) j = elim (Bool-cases (ltb_ℤ max n)) [
    | inl over ↦ rw over (decr_all-Same (held ++ k ∷ []) (touch redis k n s) j ∙ touch-Same k n s j)
    | inr within ↦ rw within (touch-Same k n s j)
  ]

  check-Same :
      (k : Key) (max : ℤ) (e : AcquireError) (held : List Key) (s : S)
      → Same s (check redis k max e held s).0
  unfolding check
  check-Same k max e held s j =
      after_incr-Same k max e held (redis.incr k s) j
      ∙ ap (λ (x : Entry). x.lapsed) (notes.incr_entry k j s)

  -- A check followed by the rest of the call.
  check-bind-Same :
      {B : Type 0} (k : Key) (max : ℤ) (e : AcquireError) (held : List Key) (s : S)
      (f : Unit {0} → S → S × Result B)
      → ((s' : S) → Same s' (f tt s').0)
      → Same s (and_then (check redis k max e held s) f).0
  check-bind-Same {B} k max e held s f rest =
      split (check redis k max e held s) (check-Same k max e held s)
    where
      split : (r : S × Result (Unit {0})) → Same s r.0 → Same s (and_then r f).0
      split (s', granted u) h j = rest s' j ∙ h j
      split (s', refused x) h j = h j

  pub acquire_for_datasource-Same :
      (l : Limits) (u d : ℕ) (s : S) → Same s (acquire_for_datasource redis l u d s).0
  unfolding acquire_for_datasource
  acquire_for_datasource-Same l u d s =
      check-bind-Same (user u) l.max_per_user concurrent_limit [] s _ (λ s₁.
        check-bind-Same global l.max_global concurrent_limit (user u ∷ []) s₁ _ (λ s₂.
          check-bind-Same (ds d) l.max_per_datasource datasource_concurrent_limit
            (user u ∷ global ∷ []) s₂ _ (λ s₃ j. refl)))

  pub release-Same : (p : Permit) (s : S) → Same s (release redis p s).0
  unfolding release
  release-Same p s j = elim (Bool-cases p.released) [
    | inl e ↦ rw e refl
    | inr e ↦ rw e (decr_all-Same p.keys s j)
  ]
