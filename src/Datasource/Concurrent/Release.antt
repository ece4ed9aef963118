-- ===== src/Datasource/Concurrent/Release.antt =====
-- What a permit gives back when it is released (scheduler/internal/datasource/concurrent.go).
use bdopsflow.Prelude.{ℕ, ◌≡◌, refl, ◌∙◌, ap, subst, false, List, [], ◌∷◌}
use bdopsflow.Prelude.Int.{ℤ, pos, ◌-ℤ◌}
use bdopsflow.Redis.{Counters, CounterLaws, Entry, JournalLaws}
use bdopsflow.Datasource.Concurrent.{
  Key, user, global, ds, granted, Limits, Permit, acquire_for_datasource, release,
}
use bdopsflow.Datasource.Concurrent.Ledger.{times, ledger, decr_all-count}
use bdopsflow.Datasource.Concurrent.Laws.{Accounts, roll_back, acquire_for_datasource-Accounts}

module _ {S : Type 0} (redis : Counters S Key) (number : S → Key → ℤ) (entry : S → Key → Entry)
    (laws : CounterLaws redis number) (notes : JournalLaws redis entry) where
  -- The closure gives back a permit's keys, and does nothing when it is called once more.
  pub release_once :
      (p : Permit) (s : S)
      → p.released ≡ false
      → let (s', p') = release redis p s in
        ((j : Key) → ledger number entry s' j ≡ ledger number entry s j -ℤ pos (times j p.keys))
        × (release redis p' s' ≡ (s', p'))
  unfolding release
  release_once p s f = rw f (λ j. decr_all-count redis number entry laws notes p.keys j s, refl)

  -- A permit that is granted and released leaves no trace in any counter, but for one more for each DECR on
  -- it that failed, where no key expires between.
  pub acquire-release :
      (l : Limits) (u d : ℕ) (s s' : S) (p : Permit)
      → acquire_for_datasource redis l u d s ≡ (s', granted p)
      → (j : Key) → ledger number entry (release redis p s').0 j ≡ ledger number entry s j
  acquire-release l u d s s' p e j =
      let keys : List Key = user u ∷ global ∷ ds d ∷ [] in
      let a : Accounts redis number entry laws notes keys s (s', granted p) =
        subst (Accounts redis number entry laws notes keys s) e
          (acquire_for_datasource-Accounts redis number entry laws notes l u d s).0 in
      roll_back redis number entry laws notes keys j s s' (release redis p s').0 (a.0 j)
        ((release_once p s' a.1).0 j ∙ ap (λ ks. ledger number entry s' j -ℤ pos (times j ks)) a.2)
