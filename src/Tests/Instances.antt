-- ===== src/Tests/Instances.antt =====
-- The theorems on instance permissions on a small table.
use bdopsflow.Prelude.{
  ℕ, ◌≡◌, refl, true, false, ◌||◌, ◌&&◌, List, [], ◌∷◌, ◌++◌, Option, none, some, if◌then◌else◌,
  ◌==◌, any, arith,
}
use bdopsflow.Permission.{Rows, rows, ok, failed, is_system_admin, is_domain_admin, read_count}
use bdopsflow.InstancePermission.{
  Grant, Instances, read_domain, first_row, has_instance_permission, has_datasource_permission,
  grant_permission,
}
use bdopsflow.InstancePermission.Types.{
  PermType, read, query, download, update, delete, manage, trigger, other, code, same, contains,
  is_valid_permission_type, get_included_permissions, get_effective_permissions,
  permission_includes, including, entry_has,
}
use bdopsflow.InstancePermission.Inclusion.{get_effective_permissions-included}
use bdopsflow.InstancePermission.Access.{InstanceLaws, matches, number}
use bdopsflow.InstancePermission.Granting.{
  has_datasource_permission-any, grant-has_datasource_permission,
}
use bdopsflow.Tests.Rights.{db, one_row}

abbrev keys : List PermType
keys = delete ∷ manage ∷ read ∷ update ∷ query ∷ download ∷ []

keys_all : (k : PermType) → contains keys k ≡ is_valid_permission_type k
unfolding contains same code is_valid_permission_type
keys_all read = refl
keys_all query = refl
keys_all download = refl
keys_all update = refl
keys_all delete = refl
keys_all manage = refl
keys_all trigger = refl
keys_all (other n) = ground arith

get_effective_permissions-included_example :
    contains (get_effective_permissions keys query) update
    ≡ contains (get_included_permissions update) query
get_effective_permissions-included_example =
    get_effective_permissions-included keys query update keys_all
      (unfold is_valid_permission_type in refl)

abbrev roles_of : ℕ → List ℕ
roles_of u = 1 ∷ []

-- Instance 9 is in domain 4, and user 1 made it.
abbrev domain_row : ℕ → Rows ℕ
domain_row i = if i == 9 then one_row 4 else rows []

abbrev table : Instances (List Grant)
table = record {
  domain_of = λ i s. domain_row i;
  creator_of = λ i s. one_row 1;
  grant_count = λ i u ps s. one_row (number (matches (roles_of u) i u (contains ps)) s);
  granted_ids = λ u ps s. rows [];
  granted_types = λ ds u s. rows (some (9, read) ∷ none ∷ some (9, update) ∷ some (8, delete) ∷ []);
  insert_grant = λ g s. (s ++ g ∷ [], ok tt);
  delete_grant = λ i s. (s, failed);
}

grants : List Grant → List Grant
grants s = s

laws : InstanceLaws table grants roles_of
unfolding grants
laws = record { count_ok = λ i u ps s n rest h. cc; insert_ok = λ g s h. refl }

-- A grant of `update` to role 1, which every user has.
abbrev state : List Grant
state =
    (record {
      instance_id = 9;
      role_id = some 1;
      user_id = none;
      permission_type = update;
      granted_by = 1;
    })
    ∷ []

not_admin : is_system_admin db 7 ≡ ok false
unfolding is_system_admin read_count
not_admin = refl

not_domain_admin : is_domain_admin db 7 4 ≡ ok false
unfolding is_domain_admin read_count
not_domain_admin = refl

in_domain : read_domain (domain_row 9) ≡ ok 4
unfolding read_domain
in_domain = refl

not_creator : first_row (λ x. x == 7) (one_row 1) ≡ ok false
unfolding first_row
not_creator = refl

has_datasource_permission-any_example :
    has_datasource_permission db table keys 7 9 query state
    ≡ ok (
        false
        || ((false && (same query read || same query query))
            || (false
                || any
                    (matches (roles_of 7) 9 7 (λ q. contains (get_included_permissions q) query))
                    (grants state))))
has_datasource_permission-any_example =
    has_datasource_permission-any db table grants roles_of laws keys 7 9 query state false false
      false 4
      (number (matches (roles_of 7) 9 7 (contains (get_effective_permissions keys query))) state) []
      keys_all (unfold is_valid_permission_type in refl) not_admin in_domain not_domain_admin
      not_creator refl

allowed : has_datasource_permission db table keys 7 9 query state ≡ ok true
unfolding has_datasource_permission has_instance_permission is_system_admin is_domain_admin
    read_count read_domain first_row get_effective_permissions permission_includes
    is_valid_permission_type including entry_has contains same code number
allowed = refl

granted : (grant_permission table 9 none (some 7) manage 1 []).1 ≡ ok tt
unfolding grant_permission
granted = refl

grant-has_datasource_permission_example :
    has_datasource_permission db table keys 7 9 download
      (grant_permission table 9 none (some 7) manage 1 []).0
    ≡ ok true
unfolding contains same code get_included_permissions permission_includes is_valid_permission_type
grant-has_datasource_permission_example =
    grant-has_datasource_permission db table grants roles_of laws keys 7 9 1 download manage []
      false false false 4
      (number (matches (roles_of 7) 9 7 (contains (get_effective_permissions keys download)))
        (grant_permission table 9 none (some 7) manage 1 []).0)
      [] keys_all refl refl granted not_admin in_domain not_domain_admin not_creator refl

abbrev type_rows : List (Option (ℕ × PermType))
type_rows = some (9, read) ∷ none ∷ some (9, update) ∷ some (8, delete) ∷ []
