-- ===== src/InstancePermission/Granting.antt =====
-- The decisions of scheduler/internal/service/instance_permission.go where no statement fails, and
-- what a grant changes.
use bdopsflow.Prelude.{
  ℕ, ◌≡◌, ap, ◌∙◌, Bool, true, ◌||◌, ◌&&◌, List, ◌∷◌, Option, none, some, ◌==◌, any, arith,
}
use bdopsflow.Permission.{rows, ok, PermissionDb, is_system_admin, is_domain_admin, positive}
use bdopsflow.InstancePermission.{
  Grant, Instances, read_domain, first_row, has_instance_permission, has_datasource_permission,
  grant_permission,
}
use bdopsflow.InstancePermission.Types.{
  PermType, read, query, same, contains, is_valid_permission_type, get_included_permissions,
  get_effective_permissions,
}
use bdopsflow.InstancePermission.Inclusion.{get_effective_permissions-included}
use bdopsflow.InstancePermission.Access.{
  matches, is_some, has_role, any-map, any-last, positive-number, InstanceLaws,
}

module _ {S : Type 0} (db : PermissionDb) (table : Instances S) (grants : S → List Grant)
    (roles_of : ℕ → List ℕ) (laws : InstanceLaws table grants roles_of) where
  has_instance_permission-steps :
      (bypass : Bool) (ps : List PermType) (u i : ℕ) (s : S) (a c e g : Bool) (d : ℕ)
      → is_system_admin db u ≡ ok a
      → read_domain (table.domain_of i s) ≡ ok d
      → is_domain_admin db u d ≡ ok c
      → first_row (λ x. x == u) (table.creator_of i s) ≡ ok e
      → first_row positive (table.grant_count i u ps s) ≡ ok g
      → has_instance_permission db table bypass ps u i s ≡ ok (a || ((c && bypass) || (e || g)))
  unfolding has_instance_permission
  has_instance_permission-steps bypass ps u i s a c e g d ha hd hc he hg = ground arith

  counted :
      (i u : ℕ) (ps : List PermType) (s : S) (n : ℕ) (rest : List (Option ℕ))
      → table.grant_count i u ps s ≡ rows (some n ∷ rest)
      → first_row positive (table.grant_count i u ps s)
        ≡ ok (any (matches (roles_of u) i u (contains ps)) (grants s))
  unfolding first_row
  counted i u ps s n rest h =
      ap (first_row positive) h
      ∙ ap (λ m. ok (positive m)) (laws.count_ok i u ps s n rest h)
      ∙ ap ok (positive-number (matches (roles_of u) i u (contains ps)) (grants s))

  -- Where the five statements answer, the decision on a data source, for a valid type, is this: a
  -- system administrator, or a domain administrator who asks to read or query, or the creator, or some
  -- grant in the table to the user or one of its roles, of a type that includes the one asked for.
  pub has_datasource_permission-any :
      (keys : List PermType) (u i : ℕ) (p : PermType) (s : S) (a c e : Bool) (d n : ℕ)
      (rest : List (Option ℕ))
      → ((k : PermType) → contains keys k ≡ is_valid_permission_type k)
      → is_valid_permission_type p ≡ true
      → is_system_admin db u ≡ ok a
      → read_domain (table.domain_of i s) ≡ ok d
      → is_domain_admin db u d ≡ ok c
      → first_row (λ x. x == u) (table.creator_of i s) ≡ ok e
      → table.grant_count i u (get_effective_permissions keys p) s ≡ rows (some n ∷ rest)
      → has_datasource_permission db table keys u i p s
        ≡ ok (
            a
            || ((c && (same p read || same p query))
                || (e
                    || any
                        (matches (roles_of u) i u (λ q. contains (get_included_permissions q) p))
                        (grants s))))
  unfolding has_datasource_permission
  has_datasource_permission-any keys u i p s a c e d n rest all valid ha hd hc he hn =
      has_instance_permission-steps (same p read || same p query) (get_effective_permissions keys p)
        u i s a c e
        (any (matches (roles_of u) i u (contains (get_effective_permissions keys p))) (grants s)) d
        ha hd hc he (counted i u (get_effective_permissions keys p) s n rest hn)
      ∙ ap (λ g. ok (a || ((c && (same p read || same p query)) || (e || g))))
          (any-map (matches (roles_of u) i u (contains (get_effective_permissions keys p)))
            (matches (roles_of u) i u (λ q. contains (get_included_permissions q) p)) (grants s)
            (λ x.
              ap
                (λ b.
                  x.instance_id == i
                  && ((is_some x.user_id u || has_role x.role_id (roles_of u)) && b))
                (get_effective_permissions-included keys p x.permission_type all valid)))

  any-granted :
      (i u by : ℕ) (f : PermType → Bool) (q : PermType) (s : S)
      → f q ≡ true
      → (grant_permission table i none (some u) q by s).1 ≡ ok tt
      → any (matches (roles_of u) i u f) (grants (grant_permission table i none (some u) q by s).0)
        ≡ true
  unfolding grant_permission
  any-granted i u by f q s h r =
      let g : Grant = record {
        instance_id = i;
        role_id = none;
        user_id = some u;
        permission_type = q;
        granted_by = by;
      } in
      ap (any (matches (roles_of u) i u f)) (laws.insert_ok g s r)
      ∙ any-last (matches (roles_of u) i u f) (grants s) g (ground (arith, h))

  -- After a successful grant of type q to a user, the user is allowed every valid type that q includes,
  -- where the five statements answer in the new state.
  pub grant-has_datasource_permission :
      (keys : List PermType) (u i by : ℕ) (p q : PermType) (s : S) (a c e : Bool) (d n : ℕ)
      (rest : List (Option ℕ))
      → ((k : PermType) → contains keys k ≡ is_valid_permission_type k)
      → is_valid_permission_type p ≡ true
      → contains (get_included_permissions q) p ≡ true
      → (grant_permission table i none (some u) q by s).1 ≡ ok tt
      → is_system_admin db u ≡ ok a
      → read_domain (table.domain_of i (grant_permission table i none (some u) q by s).0) ≡ ok d
      → is_domain_admin db u d ≡ ok c
      → first_row
          (λ x. x == u)
          (table.creator_of i (grant_permission table i none (some u) q by s).0)
        ≡ ok e
      → table.grant_count i u
          (get_effective_permissions keys p)
          (grant_permission table i none (some u) q by s).0
        ≡ rows (some n ∷ rest)
      → has_datasource_permission db table keys u i p
          (grant_permission table i none (some u) q by s).0
        ≡ ok true
  grant-has_datasource_permission keys u i by p q s a c e d n rest all valid inc r ha hd hc he hn =
      let t = (grant_permission table i none (some u) q by s).0 in
      has_datasource_permission-any keys u i p t a c e d n rest all valid ha hd hc he hn
      ∙ ap (λ g. ok (a || ((c && (same p read || same p query)) || (e || g))))
          (any-granted i u by (λ x. contains (get_included_permissions x) p) q s inc r)
      ∙ ap ok (last_true a (c && (same p read || same p query)) e)
    where
      last_true : (x y z : Bool) → (x || (y || (z || true))) ≡ true
      last_true x y z = ground arith
