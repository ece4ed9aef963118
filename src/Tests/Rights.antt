-- ===== src/Tests/Rights.antt =====
-- The permission theorems on small databases.
use bdopsflow.Prelude.{
  ℕ, ◌≡◌, refl, ◌↔◌, true, false, List, [], ◌∷◌, arith, some, if◌then◌else◌, ◌==◌, ◌⊎◌,
}
use bdopsflow.Permission.{
  Rows, rows, ok, PermissionDb, read_count, read_all, collect_role_ids, has_permission,
  is_system_admin, get_parent_role_ids,
}
use bdopsflow.Permission.Roles.{contains, expand_role_inheritance, has_any_permission}
use bdopsflow.Permission.Roles.Inheritance.{Inherits, has, parent, expand_role_inheritance-Inherits}
use bdopsflow.Permission.Roles.Decisions.{Counted, has_permission_sound, inherited_not_granted}

abbrev pub one_row : ℕ → Rows ℕ
one_row n = rows (some n ∷ [])

-- The parent of role 1 is 2, that of 2 is 1; other roles have none.
abbrev parent_of : ℕ → Rows ℕ
parent_of r = if r == 1 then one_row 2 else if r == 2 then one_row 1 else rows []

abbrev level : ℕ → ℕ
level r = if r == 2 then 3 else 0

-- User 7 has role 1; only role 2 has permissions, and everyone is in domain 4.
abbrev pub db : PermissionDb
db = record {
  system_admin_count = λ u. one_row 0;
  global_role_ids = λ u. one_row 1;
  domain_role_ids = λ u d. rows [];
  direct_role_ids = λ u. one_row 1;
  role_permission_count = λ r res act. one_row (level r);
  role_resource_count = λ r res. one_row (level r);
  parent_role_ids = parent_of;
  domain_admin_count = λ u d. one_row 0;
  membership_count = λ u d. one_row 1;
  role_permissions = λ r. rows [];
}

-- The same with a system administrator.
abbrev pub admin_db : PermissionDb
admin_db = record db { system_admin_count = λ u. one_row 1 }

closed :
    (y z : ℕ)
    → contains (1 ∷ 2 ∷ []) y ≡ true
    → contains (get_parent_role_ids db y) z ≡ true
    → contains (1 ∷ 2 ∷ []) z ≡ true
unfolding get_parent_role_ids
closed y z h k = ground arith

direct_in : (y : ℕ) → contains (1 ∷ []) y ≡ true → contains (1 ∷ 2 ∷ []) y ≡ true
direct_in y h = ground arith

two_inherited : Inherits db (1 ∷ []) 2
unfolding get_parent_role_ids
two_inherited = parent {y = 1} (has refl) refl

collected : collect_role_ids db 7 4 ≡ ok (1 ∷ [])
unfolding collect_role_ids read_all
collected = refl

expand_role_inheritance-Inherits_example :
    (contains (expand_role_inheritance db 3 (1 ∷ [])) 2 ≡ true) ↔ Inherits db (1 ∷ []) 2
expand_role_inheritance-Inherits_example =
    expand_role_inheritance-Inherits db (1 ∷ 2 ∷ []) (1 ∷ []) 3 2 closed direct_in (omega arith)

has_permission_sound_example :
    Counted (one_row 1)
    ⊎ ((roles : List ℕ) × (r : ℕ) × (collect_role_ids admin_db 7 4 ≡ ok roles)
        × (contains roles r ≡ true)
        × Counted (one_row (level r)))
unfolding has_permission is_system_admin read_count
has_permission_sound_example = has_permission_sound admin_db 7 5 6 4 refl

inherited_not_granted_example :
    (has_permission db 7 5 6 4 ≡ ok false) × (has_any_permission db 3 7 5 4 ≡ ok true)
unfolding read_count
inherited_not_granted_example =
    inherited_not_granted db (1 ∷ 2 ∷ []) (1 ∷ []) 3 7 5 6 4 2 level level closed direct_in
      (omega arith) refl collected (λ r. refl) (λ r. refl) refl two_inherited (omega arith)
