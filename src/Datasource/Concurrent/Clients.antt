-- ===== src/Datasource/Concurrent/Clients.antt =====
-- The clients of the limits (scheduler/internal/datasource/concurrent.go): they take and give back permits
-- in any order, each call one step, and time passes between the calls.
use bdopsflow.Prelude.{
  ℕ, zero, suc, ◌+◌, ◌≤◌, ◌≡◌, refl, ◌≢◌, ◌∙◌, ap, List, [], ◌∷◌, arith, if◌then◌else◌, Bool-cases,
  inl, inr,
}
use bdopsflow.Prelude.Int.{ℤ, pos, negsuc, ◌+ℤ◌, ◌-ℤ◌, ◌≤ℤ◌}
use bdopsflow.Redis.{Counters, CounterLaws, Entry, lapse, JournalLaws}
use bdopsflow.Datasource.Concurrent.{
  Key, user, global, ds, Result, granted, refused, Limits, Permit, acquire_for_datasource, release,
}
use bdopsflow.Datasource.Concurrent.Ledger.{times, ledger}
use bdopsflow.Datasource.Concurrent.Lapses.{Same, release-Same}
use bdopsflow.Datasource.Concurrent.Release.{release_once}

pub data Request : Type 0 where
  asks : ℕ → ℕ → Request
  gives : ℕ → Request
  waits : Request

-- The Redis server and the permits handed out, newest first.
pub record World (S : Type 0) : Type 0 where
  pub server : S
  pub permits : List Permit

-- The permits that hold a key and are not released.
abbrev pub held : Key → List Permit → ℕ
held j [] = 0
held j (p ∷ ps) = (if p.released then 0 else times j p.keys) + held j ps

-- `pass` lets time pass on the server, so that keys can expire.
module _ {S : Type 0} (redis : Counters S Key) (pass : S → S) (l : Limits) where
  unfoldable pub add_permit : List Permit → S × Result Permit → World S
  add_permit ps (s, granted p) = record { server = s; permits = p ∷ ps }
  add_permit ps (s, refused e) = record { server = s; permits = ps }

  -- The `i`-th permit is released; there is nothing to do where there is none.
  unfoldable pub release_at : ℕ → List Permit → S → S × List Permit
  release_at i [] s = (s, [])
  release_at zero (p ∷ ps) s = let (s', p') = release redis p s in (s', p' ∷ ps)
  release_at (suc i) (p ∷ ps) s = let (s', ps') = release_at i ps s in (s', p ∷ ps')

  unfoldable pub step : Request → World S → World S
  unfolding add_permit release_at
  step (asks u d) w = add_permit w.permits (acquire_for_datasource redis l u d w.server)
  step (gives i) w =
      let (s, ps) = release_at i w.permits w.server in record { server = s; permits = ps }
  step waits w = record w { server = pass w.server }

  unfoldable pub run : List Request → World S → World S
  run [] w = w
  run (r ∷ rs) w = run rs (step r w)

pub lower : (a t b : ℕ) → a ≡ b + t → pos a -ℤ pos t ≡ pos b
unfolding ◌-ℤ◌
lower a t b h = ground arith

pub ≤-refl : (n : ℕ) → n ≤ n
≤-refl n = omega arith

pub lapse-lapsed : (a : ℤ) (e : Entry) → e.lapsed ≤ (lapse a e).lapsed
unfolding lapse
lapse-lapsed (pos n) e = omega arith
lapse-lapsed (negsuc n) e = omega arith

pub raise : (a t : ℕ) → pos a +ℤ pos t ≡ pos (t + a)
unfolding ◌+ℤ◌
raise a t = ground arith

pub user_absent : (u' u d : ℕ) → u' ≢ u → times (user u') (user u ∷ global ∷ ds d ∷ []) ≡ 0
user_absent u' u d h = ground arith

pub ds_absent : (d' u d : ℕ) → d' ≢ d → times (ds d') (user u ∷ global ∷ ds d ∷ []) ≡ 0
ds_absent d' u d h = ground arith

-- A bound stays where no more permits are out and no less has lapsed.
pub still_below :
    (max : ℤ) (held₁ held₂ lapsed₁ lapsed₂ : ℕ)
    → held₂ ≤ held₁
    → lapsed₁ ≤ lapsed₂
    → pos held₁ ≤ℤ max +ℤ pos lapsed₁
    → pos held₂ ≤ℤ max +ℤ pos lapsed₂
unfolding ◌+ℤ◌
still_below max h₁ h₂ l₁ l₂ h l b = ground arith

module _ {S : Type 0} (redis : Counters S Key) (number : S → Key → ℤ) (entry : S → Key → Entry)
    (laws : CounterLaws redis number) (notes : JournalLaws redis entry) (pass : S → S)
    (l : Limits) where
  pub release_at-counted :
      (i : ℕ) (ps : List Permit) (s : S) (j : Key) (rest : ℕ)
      → ledger number entry s j ≡ pos (held j ps + rest)
      → ledger number entry (release_at redis pass l i ps s).0 j
        ≡ pos (held j (release_at redis pass l i ps s).1 + rest)
  unfolding release_at
  release_at-counted i [] s j rest h = h
  release_at-counted zero (p ∷ ps) s j rest h = elim (Bool-cases p.released) [
    | inl done ↦ unfold release in ground arith
    | inr out ↦
        (release_once redis number entry laws notes p s out).0 j
        ∙ ap (λ a. a -ℤ pos (times j p.keys)) h
        ∙ lower _ (times j p.keys) (held j ps + rest) (rw out (omega arith))
        ∙ ap pos (unfold release in ground arith)
  ]
  release_at-counted (suc i) (p ∷ ps) s j rest h =
      let c : ℕ = if p.released then 0 else times j p.keys in
      release_at-counted i ps s j (c + rest) (h ∙ ap pos (omega arith)) ∙ ap pos (omega arith)

  pub release_at-le :
      (i : ℕ) (ps : List Permit) (s : S) (j : Key)
      → held j (release_at redis pass l i ps s).1 ≤ held j ps
  unfolding release_at
  release_at-le i [] s j = omega arith
  release_at-le zero (p ∷ ps) s j = unfold release in ground arith
  release_at-le (suc i) (p ∷ ps) s j = omega (arith, release_at-le i ps s j)

  pub release_at-Same :
      (i : ℕ) (ps : List Permit) (s : S)
      → Same redis entry notes s (release_at redis pass l i ps s).0
  unfolding release_at
  release_at-Same i [] s j = refl
  release_at-Same zero (p ∷ ps) s j = release-Same redis entry notes p s j
  release_at-Same (suc i) (p ∷ ps) s j = release_at-Same i ps s j
