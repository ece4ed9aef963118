-- ===== src/Permission/Roles/Uniqueness.antt =====
-- expandRoleInheritance (scheduler/internal/service/permission_service.go) returns no role twice.
use bdopsflow.Prelude.{ℕ, zero, suc, ◌≡◌, refl, true, List, [], ◌∷◌, ◌++◌, Bool-cases, inl, inr}
use bdopsflow.Permission.{PermissionDb, get_parent_role_ids}
use bdopsflow.Permission.Roles.{contains, walk, expand_role_inheritance}
use bdopsflow.Permission.Roles.Members.{is_unique, is_unique-snoc}

module _ (db : PermissionDb) where
  walk_unique :
      (fuel : ℕ) (out ids : List ℕ) → is_unique out ≡ true → is_unique (walk db fuel out ids) ≡ true
  unfolding walk
  walk_unique zero out ids u = u
  walk_unique (suc fuel) out [] u = u
  walk_unique (suc fuel) out (id ∷ ids) u = elim (Bool-cases (contains out id)) [
    | inl seen ↦ rw seen (walk_unique (suc fuel) out ids u)
    | inr fresh ↦ rw fresh (
        walk_unique (suc fuel) (walk db fuel (out ++ id ∷ []) (get_parent_role_ids db id)) ids (
          walk_unique fuel (out ++ id ∷ []) (get_parent_role_ids db id)
            (is_unique-snoc out id u fresh)))
  ]

  -- No role is returned twice, whatever the fuel and the parents.
  pub expand_role_inheritance_unique :
      (fuel : ℕ) (direct : List ℕ) → is_unique (expand_role_inheritance db fuel direct) ≡ true
  unfolding expand_role_inheritance
  expand_role_inheritance_unique fuel direct = walk_unique fuel [] direct refl
