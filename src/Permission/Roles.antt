-- ===== src/Permission/Roles.antt =====
-- The roles that a user has by inheritance (`expandRoleInheritance`), and the methods over them.
pub mod Members
pub mod Inheritance
pub mod Uniqueness
pub mod Decisions
pub mod Switching
use bdopsflow.Prelude.{
  ℕ, zero, suc, ◌+◌, Bool, true, false, ◌&&◌, List, [], ◌∷◌, ◌++◌, Option, none, some,
  if◌then◌else◌, ltb, any, ◌==◌,
}
use bdopsflow.Permission.{
  Rows, fails, rows, Result, ok, failed, access_denied, ◌>>=◌, Permission, PermissionDb, readable,
  read_count, read_all, positive, is_system_admin, collect_role_ids, get_parent_role_ids,
}

abbrev pub contains : List ℕ → ℕ → Bool
contains [] x = false
contains (y ∷ ys) x = if y == x then true else contains ys x

abbrev pub has_code : List Permission → Permission → Bool
has_code [] p = false
has_code (q ∷ qs) p =
    if q.resource == p.resource && q.action == p.action then true else has_code qs p

-- The permissions of one role whose code is not there yet.
pub add_permissions : List Permission → List Permission → List Permission
add_permissions seen [] = seen
add_permissions seen (p ∷ ps) =
    add_permissions (if has_code seen p then seen else seen ++ p ∷ []) ps

-- `GetRolePermissions`; a role whose permissions cannot be read is passed over.
role_permission_list : Rows Permission → List Permission
unfolding readable
role_permission_list fails = []
role_permission_list (rows rs) = readable rs

-- One role of the loop in `HasAnyPermission`; a row that cannot be read is passed over.
role_has_any : Rows ℕ → Result Bool
role_has_any fails = failed
role_has_any (rows []) = ok false
role_has_any (rows (none ∷ rs)) = ok false
role_has_any (rows (some n ∷ rs)) = ok (positive n)

-- The number of memberships: no row is a refusal.
read_membership : Rows ℕ → Result ℕ
read_membership fails = failed
read_membership (rows []) = access_denied
read_membership (rows (none ∷ rs)) = failed
read_membership (rows (some n ∷ rs)) = ok n

module _ (db : PermissionDb) where
  -- `walk` in `expandRoleInheritance`. `visited[id]` is set exactly when `id` goes to
  -- `allRoleIDs`, so one list stands for both. The depth of the recursion is bounded by fuel.
  pub walk : ℕ → List ℕ → List ℕ → List ℕ
  walk zero out ids = out
  walk (suc fuel) out [] = out
  walk (suc fuel) out (id ∷ ids) =
      let deeper = walk fuel (out ++ id ∷ []) (get_parent_role_ids db id) in
      walk (suc fuel) (if contains out id then out else deeper) ids

  unfoldable pub expand_role_inheritance : ℕ → List ℕ → List ℕ
  expand_role_inheritance fuel direct = walk fuel [] direct

  pub any_role_resource : List ℕ → ℕ → Result Bool
  unfolding role_has_any
  any_role_resource [] resource = ok false
  any_role_resource (r ∷ rs) resource = do
    has ← role_has_any (db.role_resource_count r resource)
    elim has [ true ↦ ok true | false ↦ any_role_resource rs resource ]

  unfoldable pub has_any_permission : ℕ → ℕ → ℕ → ℕ → Result Bool
  has_any_permission fuel user_id resource domain_id = do
    admin ← is_system_admin db user_id
    elim admin [
      | true ↦ ok true
      | false ↦ do
        role_ids ← collect_role_ids db user_id domain_id
        any_role_resource (expand_role_inheritance fuel role_ids) resource
    ]

  pub add_roles : List Permission → List ℕ → List Permission
  unfolding role_permission_list
  add_roles seen [] = seen
  add_roles seen (r ∷ rs) =
      add_roles (add_permissions seen (role_permission_list (db.role_permissions r))) rs

  unfoldable pub get_permissions_by_role_ids : List ℕ → List Permission
  get_permissions_by_role_ids role_ids = add_roles [] role_ids

  unfoldable pub get_user_permissions : ℕ → ℕ → Result (List Permission)
  get_user_permissions fuel user_id = do
    role_ids ← read_all (db.direct_role_ids user_id)
    ok (get_permissions_by_role_ids (expand_role_inheritance fuel role_ids))

  -- A user who is not in the domain must be a system administrator.
  admit : ℕ → ℕ → Result (Unit {0})
  admit user_id zero = do admin ← is_system_admin db user_id; if admin then ok tt else access_denied
  admit user_id (suc n) = ok tt

  unfoldable pub switch_domain : ℕ → ℕ → ℕ → Result (List Permission)
  unfolding read_membership admit
  switch_domain fuel user_id domain_id = do
    n ← read_membership (db.membership_count user_id domain_id)
    _ ← admit user_id n
    role_ids ← collect_role_ids db user_id domain_id
    ok (get_permissions_by_role_ids (expand_role_inheritance fuel role_ids))
