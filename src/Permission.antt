-- ===== src/Permission.antt =====
-- scheduler/internal/service/permission_service.go: what a user may do. The rqlite database is a
-- parameter, `PermissionDb`, with one field for each SQL statement of the modelled methods. A
-- statement fails (`err`, or `qr.Err`), or returns rows; a row that `Slice` cannot read is `none`.
-- Ids are natural numbers (an id that is not positive stands for no domain, as 0 does), resources and
-- actions are numbers that name texts. The listings, the assignment of
-- permissions to roles and the logging are left out.
pub mod Roles
use bdopsflow.Prelude.{
  ℕ, zero, suc, ◌<◌, Bool, true, false, List, [], ◌∷◌, ◌++◌, Option, none, some, if◌then◌else◌, ltb,
  any, ◌==◌,
}

pub data Rows (A : Type 0) : Type 0 where
  fails : Rows A
  rows : List (Option A) → Rows A

pub data Result (A : Type 0) : Type 0 where
  ok : A → Result A
  failed : Result A
  access_denied : Result A

infixl 5 ◌>>=◌
abbrev pub ◌>>=◌ : {A B : Type 0} → Result A → (A → Result B) → Result B
ok a >>= f = f a
failed >>= f = failed
access_denied >>= f = access_denied

pub record Permission : Type 0 where
  pub resource : ℕ
  pub action : ℕ

-- The statements, by what they select: the number of system-admin roles of a user; its roles with no
-- domain and with a domain, and all; the number of permissions of a role for an action on a resource
-- (or for managing it), and for the resource; the parent of a role; the number of domain-admin roles;
-- the number of memberships in a domain; the permissions of a role.
pub record PermissionDb : Type 0 where
  pub system_admin_count : ℕ → Rows ℕ
  pub global_role_ids : ℕ → Rows ℕ
  pub domain_role_ids : ℕ → ℕ → Rows ℕ
  pub direct_role_ids : ℕ → Rows ℕ
  pub role_permission_count : ℕ → ℕ → ℕ → Rows ℕ
  pub role_resource_count : ℕ → ℕ → Rows ℕ
  pub parent_role_ids : ℕ → Rows ℕ
  pub domain_admin_count : ℕ → ℕ → Rows ℕ
  pub membership_count : ℕ → ℕ → Rows ℕ
  pub role_permissions : ℕ → Rows Permission

-- `for qr.Next() { row, err := qr.Slice(); if err != nil { continue }; … }`.
pub readable {ℓ} : {A : Type ℓ} → List (Option A) → List A
readable [] = []
readable (none ∷ rs) = readable rs
readable (some a ∷ rs) = a ∷ readable rs

-- One row with a count: no row is 0, a row that cannot be read an error.
unfoldable pub read_count : Rows ℕ → Result ℕ
read_count fails = failed
read_count (rows []) = ok 0
read_count (rows (none ∷ rs)) = failed
read_count (rows (some n ∷ rs)) = ok n

unfoldable pub read_all : {A : Type 0} → Rows A → Result (List A)
unfolding readable
read_all fails = failed
read_all (rows rs) = ok (readable rs)

abbrev pub positive : ℕ → Bool
positive n = ltb 0 n

-- `getParentRoleIDs`: an error is no parent.
pub positives : List ℕ → List ℕ
positives [] = []
positives (n ∷ ns) = if positive n then n ∷ positives ns else positives ns

parents_of : Rows ℕ → List ℕ
unfolding positives readable
parents_of fails = []
parents_of (rows rs) = positives (readable rs)

module _ (db : PermissionDb) where
  unfoldable pub is_system_admin : ℕ → Result Bool
  is_system_admin user_id = do n ← read_count (db.system_admin_count user_id); ok (positive n)

  unfoldable pub is_domain_admin : ℕ → ℕ → Result Bool
  is_domain_admin user_id domain_id = do
    n ← read_count (db.domain_admin_count user_id domain_id)
    ok (positive n)

  unfoldable pub check_role_permission : ℕ → ℕ → ℕ → Result Bool
  check_role_permission role_id resource action = do
    n ← read_count (db.role_permission_count role_id resource action)
    ok (positive n)

  domain_roles : ℕ → ℕ → Result (List ℕ)
  domain_roles user_id zero = ok []
  domain_roles user_id (suc d) = read_all (db.domain_role_ids user_id (suc d))

  -- The roles without a domain, and those of the domain if there is one.
  unfoldable pub collect_role_ids : ℕ → ℕ → Result (List ℕ)
  unfolding domain_roles
  collect_role_ids user_id domain_id = do
    global ← read_all (db.global_role_ids user_id)
    local ← domain_roles user_id domain_id
    ok (global ++ local)

  -- The loop over the roles: the first error or the first role that has the permission ends it.
  pub any_role : List ℕ → ℕ → ℕ → Result Bool
  any_role [] resource action = ok false
  any_role (r ∷ rs) resource action = do
    has ← check_role_permission r resource action
    elim has [ true ↦ ok true | false ↦ any_role rs resource action ]

  unfoldable pub has_permission : ℕ → ℕ → ℕ → ℕ → Result Bool
  has_permission user_id resource action domain_id = do
    admin ← is_system_admin user_id
    elim admin [
      | true ↦ ok true
      | false ↦ do role_ids ← collect_role_ids user_id domain_id; any_role role_ids resource action
    ]

  unfoldable pub get_parent_role_ids : ℕ → List ℕ
  unfolding parents_of
  get_parent_role_ids role_id = parents_of (db.parent_role_ids role_id)
