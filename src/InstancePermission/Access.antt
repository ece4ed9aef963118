-- ===== src/InstancePermission/Access.antt =====
-- What `HasDatasourcePermission` and `HasWebhookPermission` decide
-- (scheduler/internal/service/instance_permission.go), against the grants in the table.
use bdopsflow.Prelude.{
  ℕ, suc, ◌≡◌, refl, sym, ap, ◌∙◌, Bool, true, false, ◌||◌, ◌&&◌, List, [], ◌∷◌, ◌++◌, Option, none,
  some, if◌then◌else◌, ◌==◌, any, arith,
}
use bdopsflow.Permission.{
  Rows, rows, fails, failed, access_denied, ◌>>=◌, Result, ok, PermissionDb, is_system_admin,
  is_domain_admin, positive,
}
use bdopsflow.InstancePermission.{
  Grant, Instances, read_domain, first_row, has_instance_permission, has_datasource_permission,
}
use bdopsflow.InstancePermission.Types.{
  PermType, read, query, same, contains, is_valid_permission_type, get_included_permissions,
  get_effective_permissions,
}
use bdopsflow.InstancePermission.Inclusion.{get_effective_permissions-included}

abbrev pub is_some : Option ℕ → ℕ → Bool
is_some none n = false
is_some (some m) n = m == n

abbrev pub has_role : Option ℕ → List ℕ → Bool
has_role none roles = false
has_role (some r) roles = any (λ x. x == r) roles

-- Is this a grant on the instance, to the user or one of the roles, of a type that is enough?
abbrev pub matches : List ℕ → ℕ → ℕ → (PermType → Bool) → Grant → Bool
matches roles instance_id user_id enough g =
    g.instance_id == instance_id
    && ((is_some g.user_id user_id || has_role g.role_id roles) && enough g.permission_type)

unfoldable pub number : (Grant → Bool) → List Grant → ℕ
number p [] = 0
number p (g ∷ gs) = let rest = number p gs in if p g then suc rest else rest

pub positive-number : (p : Grant → Bool) (gs : List Grant) → positive (number p gs) ≡ any p gs
unfolding number
positive-number p [] = refl
positive-number p (g ∷ gs) = ground (arith, positive-number p gs)

pub any-map :
    (p q : Grant → Bool) (gs : List Grant) → ((g : Grant) → p g ≡ q g) → any p gs ≡ any q gs
any-map p q [] h = refl
any-map p q (g ∷ gs) h = ap (λ b. b || any p gs) (h g) ∙ ap (λ b. q g || b) (any-map p q gs h)

pub any-last :
    (p : Grant → Bool) (gs : List Grant) (g : Grant) → p g ≡ true → any p (gs ++ g ∷ []) ≡ true
any-last p [] g h = ground (arith, h)
any-last p (x ∷ gs) g h = ground (arith, any-last p gs g h)

-- What SQL says of the statements on the table of grants: COUNT counts the rows that match, and a
-- successful INSERT adds the row. `grants` are the rows and `roles_of` the roles of a user.
pub record InstanceLaws {S : Type 0} (table : Instances S) (grants : S → List Grant)
    (roles_of : ℕ → List ℕ) : Type 0 where
  pub count_ok :
      (i u : ℕ) (ps : List PermType) (s : S) (n : ℕ) (rest : List (Option ℕ))
      → table.grant_count i u ps s ≡ rows (some n ∷ rest)
      → n ≡ number (matches (roles_of u) i u (contains ps)) (grants s)
  pub insert_ok :
      (g : Grant) (s : S)
      → (table.insert_grant g s).1 ≡ ok tt
      → grants (table.insert_grant g s).0 ≡ grants s ++ g ∷ []

-- Who may use an instance: a system administrator, an administrator of its domain where the type is
-- within their rights, its creator, and a user with a grant of a type that is enough.
pub data MayUse {S : Type 0} (db : PermissionDb) (table : Instances S) (grants : List Grant)
    (roles : List ℕ) (bypass : Bool) (enough : PermType → Bool) (u i : ℕ) (s : S) : Type 0 where
  admin : is_system_admin db u ≡ ok true → MayUse db table grants roles bypass enough u i s
  domain_admin :
      (d : ℕ)
      → read_domain (table.domain_of i s) ≡ ok d
      → is_domain_admin db u d ≡ ok true
      → bypass ≡ true
      → MayUse db table grants roles bypass enough u i s
  creator :
      first_row (λ c. c == u) (table.creator_of i s) ≡ ok true
      → MayUse db table grants roles bypass enough u i s
  granted :
      any (matches roles i u enough) grants ≡ true
      → MayUse db table grants roles bypass enough u i s

first_row-positive :
    (q : Rows ℕ)
    → first_row positive q ≡ ok true
    → (n : ℕ) × (rest : List (Option ℕ)) × (q ≡ rows (some n ∷ rest)) × (positive n ≡ true)
unfolding first_row
first_row-positive fails e = cc
first_row-positive (rows []) e = cc
first_row-positive (rows (none ∷ rs)) e = cc
first_row-positive (rows (some n ∷ rs)) e = (n, rs, refl, cc)

module _ {S : Type 0} (db : PermissionDb) (table : Instances S) (grants : S → List Grant)
    (roles_of : ℕ → List ℕ) (laws : InstanceLaws table grants roles_of) where
  counted :
      (i u : ℕ) (ps : List PermType) (s : S)
      → first_row positive (table.grant_count i u ps s) ≡ ok true
      → any (matches (roles_of u) i u (contains ps)) (grants s) ≡ true
  counted i u ps s h =
      let (n, rest, e, p) = first_row-positive (table.grant_count i u ps s) h in
      sym (positive-number (matches (roles_of u) i u (contains ps)) (grants s))
      ∙ ap positive (sym (laws.count_ok i u ps s n rest e))
      ∙ p

  -- Whoever is allowed may use the instance, whatever statements fail.
  has_instance_permission_sound :
      (bypass : Bool) (ps : List PermType) (u i : ℕ) (s : S)
      → has_instance_permission db table bypass ps u i s ≡ ok true
      → MayUse db table (grants s) (roles_of u) bypass (contains ps) u i s
  unfolding has_instance_permission
  has_instance_permission_sound bypass ps u i s h = by_admin (is_system_admin db u) refl h
    where
      May : Type 0
      May = MayUse db table (grants s) (roles_of u) bypass (contains ps) u i s

      last : Result Bool
      last = first_row positive (table.grant_count i u ps s)

      by_creator :
          (q : Result Bool)
          → first_row (λ c. c == u) (table.creator_of i s) ≡ q
          → (q >>= λ c. elim c [ true ↦ ok true | false ↦ last ]) ≡ ok true
          → May
      by_creator (ok true) e k = creator e
      by_creator (ok false) e k = granted (counted i u ps s k)
      by_creator failed e k = cc
      by_creator access_denied e k = cc

      second : Result Bool
      second = first_row (λ c. c == u) (table.creator_of i s) >>= λ c. elim c [
        | true ↦ ok true
        | false ↦ last
      ]

      by_bypass :
          (b : Bool) (d : ℕ)
          → bypass ≡ b
          → read_domain (table.domain_of i s) ≡ ok d
          → (q : Result Bool) → is_domain_admin db u d ≡ q
          → (q >>= λ a. elim (a && b) [ true ↦ ok true | false ↦ second ]) ≡ ok true
          → May
      by_bypass true d eb ed (ok true) ea k = domain_admin d ed ea eb
      by_bypass false d eb ed (ok true) ea k =
          by_creator (first_row (λ c. c == u) (table.creator_of i s)) refl k
      by_bypass b d eb ed (ok false) ea k =
          by_creator (first_row (λ c. c == u) (table.creator_of i s)) refl k
      by_bypass b d eb ed failed ea k = cc
      by_bypass b d eb ed access_denied ea k = cc

      by_domain :
          (q : Result ℕ)
          → read_domain (table.domain_of i s) ≡ q
          → (q >>= λ d. is_domain_admin db u d >>= λ a. elim (a && bypass) [
            | true ↦ ok true
            | false ↦ second
          ])
            ≡ ok true
          → May
      by_domain (ok d) e k = by_bypass bypass d refl e (is_domain_admin db u d) refl k
      by_domain failed e k = cc
      by_domain access_denied e k = cc

      by_admin :
          (q : Result Bool)
          → is_system_admin db u ≡ q
          → (q >>= λ a. elim a [
            | true ↦ ok true
            | false ↦ read_domain (table.domain_of i s) >>= λ d. is_domain_admin db u d >>= λ a.
                elim (a && bypass) [ true ↦ ok true | false ↦ second ]
          ])
            ≡ ok true
          → May
      by_admin (ok true) e k = admin e
      by_admin (ok false) e k = by_domain (read_domain (table.domain_of i s)) refl k
      by_admin failed e k = cc
      by_admin access_denied e k = cc

  pub with_enough :
      (bypass : Bool) (f g : PermType → Bool) (u i : ℕ) (s : S)
      → ((q : PermType) → f q ≡ g q)
      → MayUse db table (grants s) (roles_of u) bypass f u i s
      → MayUse db table (grants s) (roles_of u) bypass g u i s
  with_enough bypass f g u i s h (admin a) = admin a
  with_enough bypass f g u i s h (domain_admin d a b c) = domain_admin d a b c
  with_enough bypass f g u i s h (creator c) = creator c
  with_enough bypass f g u i s h (granted c) = granted (
      sym (
        any-map (matches (roles_of u) i u f) (matches (roles_of u) i u g) (grants s) (λ x.
          ap
            (λ b.
              x.instance_id == i && ((is_some x.user_id u || has_role x.role_id (roles_of u)) && b))
            (h x.permission_type)))
      ∙ c)

  -- Allowed on a data source for a valid type, a user is a system administrator, an administrator of
  -- its domain who asks to read or query, its creator, or has a grant, in person or by a role, of a
  -- type that includes the one asked for; this holds whatever statements fail.
  pub has_datasource_permission_sound :
      (keys : List PermType) (u i : ℕ) (p : PermType) (s : S)
      → ((k : PermType) → contains keys k ≡ is_valid_permission_type k)
      → is_valid_permission_type p ≡ true
      → has_datasource_permission db table keys u i p s ≡ ok true
      → MayUse db table
          (grants s)
          (roles_of u)
          (same p read || same p query)
          (λ q. contains (get_included_permissions q) p)
          u
          i
          s
  unfolding has_datasource_permission
  has_datasource_permission_sound keys u i p s all valid h =
      with_enough (same p read || same p query) (contains (get_effective_permissions keys p))
        (λ q. contains (get_included_permissions q) p) u i s
        (λ q. get_effective_permissions-included keys p q all valid)
        (has_instance_permission_sound (same p read || same p query)
          (get_effective_permissions keys p) u i s h)
