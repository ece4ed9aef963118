-- ===== src/Datasource/Manager/Histories.antt =====
-- The drivers that a data source has open over any run of calls (scheduler/internal/datasource/manager.go).
use bdopsflow.Prelude.{ℕ, ◌≡◌, sym, ◌∙◌, Bool, List, [], ◌∷◌}
use bdopsflow.Datasource.Manager.{
  Drivers, Slot, new_slot, get_driver, remove_datasource, check_connection,
}
use bdopsflow.Datasource.Manager.Openings.{
  Counted, pool_size, get_driver-Holds, remove_datasource-size, check_connection-size,
}

module _ {S : Type 0} (drv : Drivers S) (opens left : S → ℕ)
    (counted : Counted drv opens left) where
  -- The calls on a data source.
  pub data Call : Type 0 where
    gets : (now : ℕ) → Bool → Call
    checks : (now : ℕ) → Call
    removes : Call

  unfoldable pub step : ℕ → Call → Slot × S → Slot × S
  step ds (gets now enabled) (m, s) = let r = get_driver drv now ds enabled m s in (r.0, r.1)
  step ds (checks now) (m, s) = check_connection drv now ds m s
  step ds removes (m, s) = remove_datasource drv 0 ds m s

  unfoldable pub run : ℕ → List Call → Slot × S → Slot × S
  run ds [] p = p
  run ds (c ∷ cs) p = run ds cs (step ds c p)

  step-size :
      (ds : ℕ) (c : Call) (p : Slot × S)
      → opens p.1 ≡ pool_size p.0.pool (left p.1)
      → opens (step ds c p).1 ≡ pool_size (step ds c p).0.pool (left (step ds c p).1)
  unfolding step
  step-size ds (gets now enabled) (m, s) h =
      (get_driver-Holds drv opens left counted now ds enabled m s h).counts
  step-size ds (checks now) (m, s) h = check_connection-size drv opens left counted now ds m s h
  step-size ds removes (m, s) h = remove_datasource-size drv opens left counted 0 ds m s h

  run-keeps :
      (ds : ℕ) (cs : List Call) (p : Slot × S)
      → opens p.1 ≡ pool_size p.0.pool (left p.1)
      → opens (run ds cs p).1 ≡ pool_size (run ds cs p).0.pool (left (run ds cs p).1)
  unfolding run
  run-keeps ds [] p h = h
  run-keeps ds (c ∷ cs) p h = run-keeps ds cs (step ds c p) (step-size ds c p h)

  -- Over any run of calls, checks and removals, the open drivers of a data source are the one in the pool,
  -- if there is one, and those that failed connects have left open: reconnecting and removing leak no
  -- driver whose connect succeeded.
  pub run-size :
      (ds : ℕ) (cs : List Call) (s : S)
      → opens s ≡ 0
      → left s ≡ 0
      → let r = run ds cs (new_slot, s) in opens r.1 ≡ pool_size r.0.pool (left r.1)
  unfolding new_slot pool_size
  run-size ds cs s z l = run-keeps ds cs (new_slot, s) (z ∙ sym l)
