-- ===== src/Tests/Permits.antt =====
-- The permits' theorems on a server whose state is the numbers and the journal.
use mathlib.Core.Logic.{ite}
use native.Mathlib.Decide.{ℕ_discrete}
use bdopsflow.Prelude.{suc, ◌≡◌, refl, ◌≢◌, true, false, [], ◌∷◌, some, inl, inr}
use bdopsflow.Prelude.Int.{ℤ, pos, ◌+ℤ◌, ◌-ℤ◌}
use bdopsflow.Redis.{
  Counters, CounterLaws, Entry, no_entry, lapse, JournalLaws, PassLaws, Reply, ok, err,
}
use bdopsflow.Datasource.Concurrent.{
  Key, user, global, ds, granted, Limits, Permit, decr_all, touch, after_incr, check, is_one,
  acquire_for_datasource, release, refresh_runtime_config,
}
use bdopsflow.Datasource.Concurrent.Ledger.{Key-discrete, ledger, net}
use bdopsflow.Datasource.Concurrent.Laws.{Accounts, Within, acquire_for_datasource-Accounts}
use bdopsflow.Datasource.Concurrent.Release.{acquire-release}
use bdopsflow.Datasource.Concurrent.Clients.{asks, gives, waits, run}
use bdopsflow.Datasource.Concurrent.Histories.{IsBalanced, run-start-IsBalanced}

-- The numbers, and what has happened to each key.
abbrev Server : Type 0
Server = (Key → ℤ) × (Key → Entry)

abbrev put : {A : Type 0} → Key → A → (Key → A) → Key → A
put k n s j = ite (Key-discrete j k) n (s j)

abbrev number : Server → Key → ℤ
number s k = s.0 k

abbrev entry : Server → Key → Entry
entry s k = s.1 k

-- DECR fails at the counters of the datasources.
abbrev decr : Key → Server → Server × Reply ℤ
decr (user u) s = ((put (user u) (s.0 (user u) -ℤ pos 1) s.0, s.1), ok (s.0 (user u) -ℤ pos 1))
decr global s = ((put global (s.0 global -ℤ pos 1) s.0, s.1), ok (s.0 global -ℤ pos 1))
decr (ds d) s =
    ((s.0, put (ds d) (record (s.1 (ds d)) { missed = suc (s.1 (ds d)).missed }) s.1), err)

abbrev server : Counters Server Key
server = record {
  incr = λ k s. ((put k (s.0 k +ℤ pos 1) s.0, s.1), ok (s.0 k +ℤ pos 1));
  decr = decr;
  get = λ k s. ok (some (s.0 k));
  expire = λ k n s. (s, ok true);
  set = λ k n t s. ((put k n s.0, s.1), ok tt);
  del = λ k s. ((put k (pos 0) s.0, s.1), ok (pos 1));
}

-- The counter of all expires.
abbrev pass : Server → Server
pass s = (put global (pos 0) s.0, put global (lapse (s.0 global) (s.1 global)) s.1)

ite_yes : {P A : Type 0} (d : Dec P) (x y : A) → P → ite d x y ≡ x
ite_yes (yes q) x y p = refl
ite_yes (no q) x y p = absurd (q p)

ite_no : {P A : Type 0} (d : Dec P) (x y : A) → ¬ P → ite d x y ≡ y
ite_no (yes q) x y n = absurd (n q)
ite_no (no q) x y n = refl

put_here : {A : Type 0} (k : Key) (n : A) (s : Key → A) → put k n s k ≡ n
put_here k n s = ite_yes (Key-discrete k k) n (s k) refl

put_elsewhere : {A : Type 0} (k j : Key) (n : A) (s : Key → A) → j ≢ k → put k n s j ≡ s j
put_elsewhere k j n s h = ite_no (Key-discrete j k) n (s j) h

decr_ok : (k : Key) (s : Server) (n : ℤ) → (decr k s).1 ≡ ok n → (decr k s).0.0 k ≡ s.0 k -ℤ pos 1
decr_ok (user u) s n h = put_here (user u) (s.0 (user u) -ℤ pos 1) s.0
decr_ok global s n h = put_here global (s.0 global -ℤ pos 1) s.0
decr_ok (ds d) s n h = absurd cc

decr_err : (k : Key) (s : Server) → (decr k s).1 ≡ err → (decr k s).0.0 k ≡ s.0 k
decr_err (user u) s h = absurd cc
decr_err global s h = absurd cc
decr_err (ds d) s h = refl

decr_elsewhere : (k j : Key) (s : Server) → j ≢ k → (decr k s).0.0 j ≡ s.0 j
decr_elsewhere (user u) j s h = put_elsewhere (user u) j (s.0 (user u) -ℤ pos 1) s.0 h
decr_elsewhere global j s h = put_elsewhere global j (s.0 global -ℤ pos 1) s.0 h
decr_elsewhere (ds d) j s h = refl

decr_ok_entry : (k : Key) (s : Server) (n : ℤ) → (decr k s).1 ≡ ok n → (decr k s).0.1 k ≡ s.1 k
decr_ok_entry (user u) s n h = refl
decr_ok_entry global s n h = refl
decr_ok_entry (ds d) s n h = absurd cc

decr_err_entry :
    (k : Key) (s : Server)
    → (decr k s).1 ≡ err
    → (decr k s).0.1 k ≡ record (s.1 k) { missed = suc (s.1 k).missed }
decr_err_entry (user u) s h = absurd cc
decr_err_entry global s h = absurd cc
decr_err_entry (ds d) s h = put_here (ds d) _ s.1

decr_entry_elsewhere : (k j : Key) (s : Server) → j ≢ k → (decr k s).0.1 j ≡ s.1 j
decr_entry_elsewhere (user u) j s h = refl
decr_entry_elsewhere global j s h = refl
decr_entry_elsewhere (ds d) j s h = put_elsewhere (ds d) j _ s.1 h

server_laws : CounterLaws server number
server_laws = record {
  incr_ok = λ k s n e. cc;
  incr_here = λ k s n e. put_here k (s.0 k +ℤ pos 1) s.0;
  incr_elsewhere = λ k j s h. put_elsewhere k j (s.0 k +ℤ pos 1) s.0 h;
  incr_err = λ k s e. cc;
  decr_ok = decr_ok;
  decr_err = decr_err;
  decr_elsewhere = decr_elsewhere;
  expire_same = λ k j n s. refl;
  get_ok = λ k s n e. cc;
  get_none = λ k s e. cc;
  set_here = λ k n t s. put_here k n s.0;
  set_elsewhere = λ k j n t s h. put_elsewhere k j n s.0 h;
  del_here = λ k s. put_here k (pos 0) s.0;
  del_elsewhere = λ k j s h. put_elsewhere k j (pos 0) s.0 h;
}

server_notes : JournalLaws server entry
server_notes = record {
  incr_entry = λ k j s. refl;
  expire_entry = λ k j n s. refl;
  decr_ok_entry = decr_ok_entry;
  decr_err_entry = decr_err_entry;
  decr_entry_elsewhere = decr_entry_elsewhere;
}

server_passes : PassLaws pass number entry
server_passes = record {
  passes = λ j s. elim (Key-discrete j global) [
    | yes p ↦ inr (rw p (put_here global (pos 0) s.0, put_here global _ s.1))
    | no p ↦ inl (put_elsewhere global j (pos 0) s.0 p, put_elsewhere global j _ s.1 p)
  ];
}

abbrev empty : Server
empty = (λ k. pos 0, λ k. no_entry)

-- One query a user; five in all, two a datasource.
abbrev limits : Limits
limits = record { max_per_user = pos 1; max_global = pos 5; max_per_datasource = pos 2 }

acquire_for_datasource-Accounts_example :
    let r = acquire_for_datasource server limits 4 9 empty in
    Accounts server number entry server_laws server_notes (user 4 ∷ global ∷ ds 9 ∷ []) empty r
    × Within server number entry server_laws server_notes (user 4) (pos 1) r
    × Within server number entry server_laws server_notes global (pos 5) r
    × Within server number entry server_laws server_notes (ds 9) (pos 2) r
acquire_for_datasource-Accounts_example =
    acquire_for_datasource-Accounts server number entry server_laws server_notes limits 4 9 empty

abbrev permit : Permit
permit = record { keys = user 4 ∷ global ∷ []; released = false }

acquire-release_example :
    let r = acquire_for_datasource server limits 4 9 empty in
    ledger number entry
      (release server (record { keys = user 4 ∷ global ∷ ds 9 ∷ []; released = false }) r.0).0
      (ds 9)
    ≡ pos 0
unfolding acquire_for_datasource check after_incr touch decr_all is_one Key-discrete ◌+ℤ◌ ℕ_discrete
    ledger net ◌-ℤ◌
acquire-release_example =
    acquire-release server number entry server_laws server_notes limits 4 9 empty
      (acquire_for_datasource server limits 4 9 empty).0
      (record { keys = user 4 ∷ global ∷ ds 9 ∷ []; released = false }) granted_now (ds 9)
  where
    granted_now : acquire_for_datasource server limits 4 9 empty ≡ (
      (acquire_for_datasource server limits 4 9 empty).0,
      granted (record { keys = user 4 ∷ global ∷ ds 9 ∷ []; released = false }),
    )
    granted_now = refl

run-start-IsBalanced_example :
    IsBalanced server number entry server_laws server_notes pass server_passes
      (refresh_runtime_config limits)
      (run server pass
        (refresh_runtime_config limits)
        (asks 4 9 ∷ asks 4 9 ∷ waits ∷ gives 0 ∷ [])
        (record { server = empty; permits = [] }))
run-start-IsBalanced_example =
    run-start-IsBalanced server number entry server_laws server_notes pass server_passes limits
      (asks 4 9 ∷ asks 4 9 ∷ waits ∷ gives 0 ∷ []) empty (λ j. refl) (λ j. refl)
