-- ===== src/Permission/Roles/Switching.antt =====
-- What SwitchDomain (scheduler/internal/service/permission_service.go) asks of a user.
use bdopsflow.Prelude.{
  ℕ, zero, suc, ◌≡◌, refl, Bool, true, false, List, [], ◌∷◌, arith, if◌then◌else◌, inl, inr, ◌⊎◌,
  some, none,
}
use bdopsflow.Permission.{
  Permission, Rows, fails, rows, Result, ok, failed, access_denied, ◌>>=◌, PermissionDb, read_count,
  is_system_admin, collect_role_ids,
}
use bdopsflow.Permission.Roles.{
  expand_role_inheritance, get_permissions_by_role_ids, switch_domain, read_membership, admit,
}
use bdopsflow.Permission.Roles.Decisions.{Counted, read_positive}

module _ (db : PermissionDb) where
  -- `SwitchDomain` returns permissions only to a user with a membership in the domain, or to a
  -- system administrator.
  pub switch_domain_sound :
      (fuel user domain : ℕ) (ps : List Permission)
      → switch_domain db fuel user domain ≡ ok ps
      → Counted (db.membership_count user domain) ⊎ Counted (db.system_admin_count user)
  unfolding switch_domain
  switch_domain_sound fuel user domain ps h = by_members (db.membership_count user domain) refl h
    where
      rest : Unit {0} → Result (List Permission)
      rest _ = do
        role_ids ← collect_role_ids db user domain
        ok (get_permissions_by_role_ids db (expand_role_inheritance db fuel role_ids))

      by_admin :
          (q : Result Bool)
          → is_system_admin db user ≡ q
          → ((q >>= λ admin. if admin then ok tt else access_denied) >>= rest) ≡ ok ps
          → Counted (db.system_admin_count user)
      by_admin (ok true) e k =
          read_positive (db.system_admin_count user) (unfold is_system_admin in e)
      by_admin (ok false) e k = cc
      by_admin failed e k = cc
      by_admin access_denied e k = cc

      by_count :
          (n : ℕ)
          → read_count (db.membership_count user domain) ≡ ok n
          → (admit db user n >>= rest) ≡ ok ps
          → Counted (db.membership_count user domain) ⊎ Counted (db.system_admin_count user)
      by_count zero e k = inr (by_admin (is_system_admin db user) refl (unfold admit in k))
      by_count (suc n) e k = inl (suc n, e, omega arith)

      by_members :
          (r : Rows ℕ)
          → db.membership_count user domain ≡ r
          → (read_membership r >>= λ n. admit db user n >>= rest) ≡ ok ps
          → Counted (db.membership_count user domain) ⊎ Counted (db.system_admin_count user)
      by_members fails e k = cc
      by_members (rows []) e k = cc
      by_members (rows (none ∷ rs)) e k = cc
      by_members (rows (some n ∷ rs)) e k = by_count n (rw e (unfold read_count in refl)) k
