-- ===== src/Datasource/Concurrent/Histories.antt =====
-- What the counters say over any run of the clients, and how many permits are out
-- (scheduler/internal/datasource/concurrent.go).
use native.Mathlib.Decide.{ℕ_discrete}
use bdopsflow.Prelude.{
  ℕ, ◌≤◌, ◌≡◌, refl, ◌∙◌, ap, subst, List, [], ◌∷◌, arith, inl, inr, ◌⊎◌, false,
}
use bdopsflow.Prelude.Int.{ℤ, pos, negsuc, ◌+ℤ◌, ◌-ℤ◌, ◌≤ℤ◌}
use bdopsflow.Redis.{Counters, CounterLaws, Entry, lapse, no_entry, JournalLaws, PassLaws}
use bdopsflow.Datasource.Concurrent.{
  Key, user, global, ds, Result, granted, refused, Limits, refresh_runtime_config, or_default,
  Permit, acquire_for_datasource,
}
use bdopsflow.Datasource.Concurrent.Ledger.{times, ledger, net, net_le, net-lapse}
use bdopsflow.Datasource.Concurrent.Lapses.{Same, acquire_for_datasource-Same}
use bdopsflow.Datasource.Concurrent.Laws.{Accounts, Within, acquire_for_datasource-Accounts}
use bdopsflow.Datasource.Concurrent.Clients.{
  Request, asks, gives, waits, World, held, add_permit, release_at, step, run, ≤-refl, lapse-lapsed,
  raise, user_absent, ds_absent, still_below, release_at-counted, release_at-le, release_at-Same,
}

module _ {S : Type 0} (redis : Counters S Key) (number : S → Key → ℤ) (entry : S → Key → Entry)
    (laws : CounterLaws redis number) (notes : JournalLaws redis entry) (pass : S → S)
    (expires : PassLaws pass number entry) (l : Limits) where
  -- Every counter is the number of permits out, but for what it lost by expiring and the DECRs that failed;
  -- the permits pass a limit by no more than its counter lost.
  pub record IsBalanced (w : World S) : Type 0 where
    pub counted : (j : Key) → ledger number entry w.server j ≡ pos (held j w.permits)
    pub user_within :
        (u : ℕ)
        → pos (held (user u) w.permits) ≤ℤ l.max_per_user +ℤ pos (entry w.server (user u)).lapsed
    pub global_within :
        pos (held global w.permits) ≤ℤ l.max_global +ℤ pos (entry w.server global).lapsed
    pub ds_within :
        (d : ℕ)
        → pos (held (ds d) w.permits) ≤ℤ l.max_per_datasource +ℤ pos (entry w.server (ds d)).lapsed

  gives-IsBalanced :
      (i : ℕ) (w : World S) → IsBalanced w → IsBalanced (step redis pass l (gives i) w)
  unfolding step
  gives-IsBalanced i w v = record {
    counted = λ j.
        release_at-counted redis number entry laws notes pass l i w.permits w.server j 0
          (v.counted j ∙ ap pos (omega arith))
        ∙ ap pos (omega arith);
    user_within = λ u. below (user u) l.max_per_user (v.user_within u);
    global_within = below global l.max_global v.global_within;
    ds_within = λ d. below (ds d) l.max_per_datasource (v.ds_within d);
  }
    where
      below :
          (j : Key) (max : ℤ)
          → pos (held j w.permits) ≤ℤ max +ℤ pos (entry w.server j).lapsed
          → pos (held j (release_at redis pass l i w.permits w.server).1)
            ≤ℤ max +ℤ pos (entry (release_at redis pass l i w.permits w.server).0 j).lapsed
      below j max h =
          still_below max _ _ _ _
            (release_at-le redis number entry laws notes pass l i w.permits w.server j)
            (omega
              (arith, release_at-Same redis number entry laws notes pass l i w.permits w.server j))
            h

  pass-ledger : (j : Key) (s : S) → ledger number entry (pass s) j ≡ ledger number entry s j
  unfolding ledger
  pass-ledger j s = elim (expires.passes j s) [
    | inl (n, e) ↦ ap (net (number (pass s) j)) e ∙ ap (λ a. net a (entry s j)) n
    | inr (n, e) ↦
        ap (net (number (pass s) j)) e
        ∙ ap (λ a. net a (lapse (number s j) (entry s j))) n
        ∙ net-lapse (number s j) (entry s j)
  ]

  pass-lapsed : (j : Key) (s : S) → (entry s j).lapsed ≤ (entry (pass s) j).lapsed
  pass-lapsed j s = elim (expires.passes j s) [
    | inl (n, e) ↦ omega (arith, ap (λ (x : Entry). x.lapsed) e)
    | inr (n, e) ↦
        omega (arith, ap (λ (x : Entry). x.lapsed) e, lapse-lapsed (number s j) (entry s j))
  ]

  waits-IsBalanced : (w : World S) → IsBalanced w → IsBalanced (step redis pass l waits w)
  unfolding step
  waits-IsBalanced w v = record {
    counted = λ j. pass-ledger j w.server ∙ v.counted j;
    user_within = λ u. below (user u) l.max_per_user (v.user_within u);
    global_within = below global l.max_global v.global_within;
    ds_within = λ d. below (ds d) l.max_per_datasource (v.ds_within d);
  }
    where
      below :
          (j : Key) (max : ℤ)
          → pos (held j w.permits) ≤ℤ max +ℤ pos (entry w.server j).lapsed
          → pos (held j w.permits) ≤ℤ max +ℤ pos (entry (pass w.server) j).lapsed
      below j max h = still_below max _ _ _ _ (≤-refl (held j w.permits)) (pass-lapsed j w.server) h

  -- After a grant a key is within its limit: the call has checked it, or has not touched it.
  granted_within :
      (j : Key) (max : ℤ) (keys : List Key) (p : Permit) (ps : List Permit) (s s' : S)
      → p.released ≡ false
      → p.keys ≡ keys
      → ledger number entry s' j ≡ pos (held j (p ∷ ps))
      → Same redis entry notes s s'
      → pos (held j ps) ≤ℤ max +ℤ pos (entry s j).lapsed
      → (times j keys ≡ 0) ⊎ (number s' j ≤ℤ max)
      → pos (held j (p ∷ ps)) ≤ℤ max +ℤ pos (entry s' j).lapsed
  granted_within j max keys p ps s s' f k e same w (inl absent) =
      still_below max (held j ps) _ (entry s j).lapsed _ (rw (f, k, absent) (omega arith))
        (omega (arith, same j)) w
  granted_within j max keys p ps s s' f k e same w (inr checked) =
      subst (λ a. a ≤ℤ max +ℤ pos (entry s' j).lapsed) e
        (unfold ledger in net_le (number s' j) max (entry s' j) checked)

  asks-IsBalanced :
      (u d : ℕ) (w : World S) → IsBalanced w → IsBalanced (step redis pass l (asks u d) w)
  unfolding step
  asks-IsBalanced u d w v =
      after (acquire_for_datasource redis l u d w.server)
        (acquire_for_datasource-Accounts redis number entry laws notes l u d w.server)
        (acquire_for_datasource-Same redis entry notes l u d w.server)
    where
      keys : List Key
      keys = user u ∷ global ∷ ds d ∷ []

      after :
          (r : S × Result Permit)
          → Accounts redis number entry laws notes keys w.server r
            × Within redis number entry laws notes (user u) l.max_per_user r
            × Within redis number entry laws notes global l.max_global r
            × Within redis number entry laws notes (ds d) l.max_per_datasource r
          → Same redis entry notes w.server r.0
          → IsBalanced (add_permit redis pass l w.permits r)
      after (s', refused e) (back, _, _, _) same = record {
        counted = λ j. back j ∙ v.counted j;
        user_within = λ u'. kept (user u') l.max_per_user (v.user_within u');
        global_within = kept global l.max_global v.global_within;
        ds_within = λ d'. kept (ds d') l.max_per_datasource (v.ds_within d');
      }
        where
          kept :
              (j : Key) (max : ℤ)
              → pos (held j w.permits) ≤ℤ max +ℤ pos (entry w.server j).lapsed
              → pos (held j w.permits) ≤ℤ max +ℤ pos (entry s' j).lapsed
          kept j max h =
              still_below max _ _ _ _ (≤-refl (held j w.permits)) (omega (arith, same j)) h
      after (s', granted p) ((raised, f, k), wu, wg, wd) same = record {
        counted = now;
        user_within = λ u'.
            granted_within (user u') l.max_per_user keys p w.permits w.server s' f k (now (user u'))
              same (v.user_within u') (user_cases u');
        global_within =
            granted_within global l.max_global keys p w.permits w.server s' f k (now global) same
              v.global_within (inr wg);
        ds_within = λ d'.
            granted_within (ds d') l.max_per_datasource keys p w.permits w.server s' f k
              (now (ds d')) same (v.ds_within d') (ds_cases d');
      }
        where
          now : (j : Key) → ledger number entry s' j ≡ pos (held j (p ∷ w.permits))
          now j =
              raised j
              ∙ ap (λ a. a +ℤ pos (times j keys)) (v.counted j)
              ∙ raise (held j w.permits) (times j keys)
              ∙ ap pos (rw (f, k) refl)

          user_cases :
              (u' : ℕ) → (times (user u') keys ≡ 0) ⊎ (number s' (user u') ≤ℤ l.max_per_user)
          user_cases u' = elim (ℕ_discrete u' u) [
            | yes same ↦ inr (rw same wu)
            | no other ↦ inl (user_absent u' u d other)
          ]

          ds_cases :
              (d' : ℕ) → (times (ds d') keys ≡ 0) ⊎ (number s' (ds d') ≤ℤ l.max_per_datasource)
          ds_cases d' = elim (ℕ_discrete d' d) [
            | yes same ↦ inr (rw same wd)
            | no other ↦ inl (ds_absent d' u d other)
          ]

  step-IsBalanced : (r : Request) (w : World S) → IsBalanced w → IsBalanced (step redis pass l r w)
  step-IsBalanced (asks u d) w v = asks-IsBalanced u d w v
  step-IsBalanced (gives i) w v = gives-IsBalanced i w v
  step-IsBalanced waits w v = waits-IsBalanced w v

  pub run-IsBalanced :
      (rs : List Request) (w : World S) → IsBalanced w → IsBalanced (run redis pass l rs w)
  unfolding run
  run-IsBalanced [] w v = v
  run-IsBalanced (r ∷ rs) w v = run-IsBalanced rs (step redis pass l r w) (step-IsBalanced r w v)

nonneg : (c : ℤ) (d n : ℕ) → pos 0 ≤ℤ or_default c d +ℤ pos n
unfolding or_default ◌+ℤ◌
nonneg (pos m) d n = ground arith
nonneg (negsuc m) d n = ground arith

net_zero : net (pos 0) no_entry ≡ pos 0
unfolding net ◌+ℤ◌ ◌-ℤ◌
net_zero = refl

-- With the limits of any configuration, whatever the clients ask for and give back, in any order, which
-- commands fail, and which keys expire between two calls: each counter, with what it lost by expiring and
-- without the DECRs that failed, is the number of permits out for its key; the permits of a user, of all
-- and of a datasource pass their limit by no more than the counter lost by expiring, so not at all where
-- no counter above 0 expires. It starts with no permits, and counters at 0. A command that fails is
-- one that is not carried out, and no key expires during a call.
pub run-start-IsBalanced :
    {S : Type 0} (redis : Counters S Key) (number : S → Key → ℤ) (entry : S → Key → Entry)
    (laws : CounterLaws redis number) (notes : JournalLaws redis entry) (pass : S → S)
    (expires : PassLaws pass number entry) (c : Limits) (rs : List Request) (s : S)
    → ((j : Key) → number s j ≡ pos 0)
    → ((j : Key) → entry s j ≡ no_entry)
    → IsBalanced redis number entry laws notes pass expires
        (refresh_runtime_config c)
        (run redis pass (refresh_runtime_config c) rs (record { server = s; permits = [] }))
unfolding refresh_runtime_config
run-start-IsBalanced redis number entry laws notes pass expires c rs s zeros empty =
    run-IsBalanced redis number entry laws notes pass expires (refresh_runtime_config c) rs _
      (record {
        counted = λ j.
            unfold ledger in
            (ap (net (number s j)) (empty j) ∙ ap (λ a. net a no_entry) (zeros j) ∙ net_zero);
        user_within = λ u. nonneg c.max_per_user 5 (entry s (user u)).lapsed;
        global_within = nonneg c.max_global 50 (entry s global).lapsed;
        ds_within = λ d. nonneg c.max_per_datasource 10 (entry s (ds d)).lapsed;
      })
