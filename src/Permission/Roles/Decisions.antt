-- ===== src/Permission/Roles/Decisions.antt =====
-- When `HasPermission`, `HasAnyPermission` and `SwitchDomain` allow.
use bdopsflow.Prelude.{
  ℕ, ◌<◌, ◌≡◌, refl, ap, subst, ◌∙◌, Bool, true, false, ◌||◌, List, [], ◌∷◌, arith, Bool-cases, inl,
  inr, ◌⊎◌, length, ◌==◌, any, some, none,
}
use bdopsflow.Permission.{
  Rows, fails, rows, Result, ok, failed, access_denied, ◌>>=◌, PermissionDb, get_parent_role_ids,
  read_count, positive, is_system_admin, check_role_permission, any_role, has_permission,
  collect_role_ids,
}
use bdopsflow.Permission.Roles.Inheritance.{Inherits, expand_role_inheritance-Inherits}
use bdopsflow.Permission.Roles.{
  contains, expand_role_inheritance, any_role_resource, has_any_permission, role_has_any,
}

ok-injective : {A : Type 0} {x y : A} → ok x ≡ ok y → x ≡ y
ok-injective h = cc

-- A count that was read from a row and is positive.
abbrev pub Counted : Rows ℕ → Type 0
Counted r = (n : ℕ) × (read_count r ≡ ok n) × (0 < n)

pub read_positive : (r : Rows ℕ) → (read_count r >>= λ n. ok (positive n)) ≡ ok true → Counted r
read_positive r h = positive_of (read_count r) refl h
  where
    positive_of :
        (q : Result ℕ) → read_count r ≡ q → (q >>= λ n. ok (positive n)) ≡ ok true → Counted r
    positive_of (ok n) e h = (n, e, ground arith)
    positive_of failed e h = cc
    positive_of access_denied e h = cc

module _ (db : PermissionDb) where
  any_role-any :
      (rs : List ℕ) (resource action : ℕ) (c : ℕ → ℕ)
      → ((r : ℕ) → read_count (db.role_permission_count r resource action) ≡ ok (c r))
      → any_role db rs resource action ≡ ok (any (λ r. positive (c r)) rs)
  unfolding any_role check_role_permission
  any_role-any [] resource action c h = refl
  any_role-any (r ∷ rs) resource action c h =
      ground (arith, h r, any_role-any rs resource action c h)

  -- Where the statements can be read, `HasPermission` allows exactly a system administrator and a
  -- user with a role of its own, global or in the domain, that has the permission itself.
  pub has_permission-any :
      (user resource action domain a : ℕ) (roles : List ℕ) (c : ℕ → ℕ)
      → read_count (db.system_admin_count user) ≡ ok a
      → collect_role_ids db user domain ≡ ok roles
      → ((r : ℕ) → read_count (db.role_permission_count r resource action) ≡ ok (c r))
      → has_permission db user resource action domain
        ≡ ok (positive a || any (λ r. positive (c r)) roles)
  unfolding has_permission is_system_admin
  has_permission-any user resource action domain a roles c ha hr hc =
      ground (arith, any_role-any roles resource action c hc)

  any_role-Counted :
      (rs : List ℕ) (resource action : ℕ)
      → any_role db rs resource action ≡ ok true
      → (r : ℕ) × (contains rs r ≡ true) × Counted (db.role_permission_count r resource action)
  unfolding any_role check_role_permission
  any_role-Counted [] resource action h = cc
  any_role-Counted (r ∷ rs) resource action h =
      split (any_role-Counted rs resource action)
        (read_count (db.role_permission_count r resource action)) refl h
    where
      Found : List ℕ → Type 0
      Found ids =
          (r' : ℕ) × (contains ids r' ≡ true)
          × Counted (db.role_permission_count r' resource action)

      keep : Found rs → Found (r ∷ rs)
      keep (r', c, f) = (r', ground arith, f)

      split :
          (any_role db rs resource action ≡ ok true → Found rs)
          → (q : Result ℕ) → read_count (db.role_permission_count r resource action) ≡ q
          → ((q >>= λ n. ok (positive n)) >>= λ b. elim b [
            | true ↦ ok true
            | false ↦ any_role db rs resource action
          ])
            ≡ ok true
          → Found (r ∷ rs)
      split later failed e h = cc
      split later access_denied e h = cc
      split later (ok n) e h = elim (Bool-cases (positive n)) [
        | inl yes_now ↦ (r, ground arith, (n, e, ground arith))
        | inr not_now ↦ keep (later (rw not_now at h))
      ]

  -- An allowed request has its evidence, whatever statements fail: a counted system-admin role of the
  -- user, or a role among those collected for which a permission was counted.
  pub has_permission_sound :
      (user resource action domain : ℕ)
      → has_permission db user resource action domain ≡ ok true
      → Counted (db.system_admin_count user)
        ⊎ ((roles : List ℕ) × (r : ℕ) × (collect_role_ids db user domain ≡ ok roles)
            × (contains roles r ≡ true)
            × Counted (db.role_permission_count r resource action))
  unfolding has_permission
  has_permission_sound user resource action domain h = by_admin (is_system_admin db user) refl h
    where
      Evidence : Type 0
      Evidence =
          Counted (db.system_admin_count user)
          ⊎ ((roles : List ℕ) × (r : ℕ) × (collect_role_ids db user domain ≡ ok roles)
              × (contains roles r ≡ true)
              × Counted (db.role_permission_count r resource action))

      by_roles :
          (q : Result (List ℕ))
          → collect_role_ids db user domain ≡ q
          → (q >>= λ ids. any_role db ids resource action) ≡ ok true
          → Evidence
      by_roles (ok roles) e k =
          let (r, c, f) = any_role-Counted roles resource action k in inr (roles, r, e, c, f)
      by_roles failed e k = cc
      by_roles access_denied e k = cc

      by_admin :
          (q : Result Bool)
          → is_system_admin db user ≡ q
          → (q >>= λ admin. elim admin [
            | true ↦ ok true
            | false ↦ collect_role_ids db user domain >>= λ ids. any_role db ids resource action
          ])
            ≡ ok true
          → Evidence
      by_admin (ok true) e k =
          inl (read_positive (db.system_admin_count user) (unfold is_system_admin in e))
      by_admin (ok false) e k = by_roles (collect_role_ids db user domain) refl k
      by_admin failed e k = cc
      by_admin access_denied e k = cc

  role_has_any-count : (q : Rows ℕ) (n : ℕ) → read_count q ≡ ok n → role_has_any q ≡ ok (positive n)
  unfolding role_has_any read_count
  role_has_any-count fails n e = cc
  role_has_any-count (rows []) n e = ground arith
  role_has_any-count (rows (none ∷ rs)) n e = cc
  role_has_any-count (rows (some m ∷ rs)) n e = ground arith

  any_role_resource-any :
      (rs : List ℕ) (resource : ℕ) (c : ℕ → ℕ)
      → ((r : ℕ) → read_count (db.role_resource_count r resource) ≡ ok (c r))
      → any_role_resource db rs resource ≡ ok (any (λ r. positive (c r)) rs)
  unfolding any_role_resource
  any_role_resource-any [] resource c h = refl
  any_role_resource-any (r ∷ rs) resource c h = ground (
    arith,
    role_has_any-count (db.role_resource_count r resource) (c r) (h r),
    any_role_resource-any rs resource c h,
  )

  -- Where the statements can be read, `HasAnyPermission` allows a system administrator and a user
  -- with a role of its own, or one that these inherit, that has a permission on the resource.
  pub has_any_permission-any :
      (fuel user resource domain a : ℕ) (roles : List ℕ) (c : ℕ → ℕ)
      → read_count (db.system_admin_count user) ≡ ok a
      → collect_role_ids db user domain ≡ ok roles
      → ((r : ℕ) → read_count (db.role_resource_count r resource) ≡ ok (c r))
      → has_any_permission db fuel user resource domain
        ≡ ok (positive a || any (λ r. positive (c r)) (expand_role_inheritance db fuel roles))
  unfolding has_any_permission is_system_admin
  has_any_permission-any fuel user resource domain a roles c ha hr hc =
      ground (arith, any_role_resource-any (expand_role_inheritance db fuel roles) resource c hc)

  any-contains :
      (c : ℕ → ℕ) (ids : List ℕ) (p : ℕ)
      → contains ids p ≡ true
      → 0 < c p
      → any (λ r. positive (c r)) ids ≡ true
  any-contains c [] p h k = cc
  any-contains c (r ∷ ids) p h k = elim (Bool-cases (r == p)) [
    | inl here ↦
        let e : p ≡ r = ground arith in
        let pos_r : 0 < c r = subst (λ z. 0 < c z) e k in ground arith
    | inr there ↦ ground (arith, any-contains c ids p)
  ]

  -- A permission that a user has only by inheritance: none of the roles that are collected has it,
  -- and a role that they inherit has a permission on the resource. Where the statements can be read,
  -- `HasPermission` refuses every action on the resource that only inherited roles allow, and
  -- `HasAnyPermission` allows the resource.
  pub inherited_not_granted :
      (us roles : List ℕ) (fuel user resource action domain p : ℕ) (c d : ℕ → ℕ)
      → ((y z : ℕ)
          → contains us y ≡ true
          → contains (get_parent_role_ids db y) z ≡ true
          → contains us z ≡ true)
      → ((y : ℕ) → contains roles y ≡ true → contains us y ≡ true)
      → length us < fuel
      → read_count (db.system_admin_count user) ≡ ok 0
      → collect_role_ids db user domain ≡ ok roles
      → ((r : ℕ) → read_count (db.role_permission_count r resource action) ≡ ok (c r))
      → ((r : ℕ) → read_count (db.role_resource_count r resource) ≡ ok (d r))
      → any (λ r. positive (c r)) roles ≡ false
      → Inherits db roles p
      → 0 < d p
      → (has_permission db user resource action domain ≡ ok false)
        × (has_any_permission db fuel user resource domain ≡ ok true)
  inherited_not_granted us roles fuel user resource action domain p c d uc sub lt ha hr hc hd nobody
        inh pos_p =
      (
        has_permission-any user resource action domain 0 roles c ha hr hc ∙ ap ok nobody,
        has_any_permission-any fuel user resource domain 0 roles d ha hr hd
            ∙ ap ok (
                any-contains d (expand_role_inheritance db fuel roles) p
                  ((expand_role_inheritance-Inherits db us roles fuel p uc sub lt).1 inh) pos_p),
      )
