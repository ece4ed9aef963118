-- ===== src/Middleware/Guards.antt =====
-- What a request has shown when it gets past the guards of scheduler/internal/middleware/auth.go, in
-- the order in which scheduler/cmd/routes.go puts them before a handler.
use bdopsflow.Prelude.{
  ℕ, ◌≡◌, ◌≢◌, ◌⊎◌, inl, inr, refl, sym, ap, subst, ◌∙◌, Bool, true, false, List, [], ◌∷◌, Option,
  none, some, if◌then◌else◌, arith, ltb, ==_iff, ◌==◌,
}
use bdopsflow.Permission.{Result, ok, failed, access_denied, PermissionDb, has_permission}
use bdopsflow.Middleware.{
  Bytes, Request, Claims, Context, Outcome, next, abort, AuthType, Validator, token_of,
  jwt_auth_middleware_with_api_token, RoleCode, inject_user_role, require_permission,
  datasource_permission_middleware, datasource_id_of, must_name, chain, and_then, empty_context,
  decide, with_roles,
}
use bdopsflow.Middleware.Authentication.{
  Identifies, Authenticated, jwt_auth_middleware_with_api_token-Authenticated,
}

context_of : Outcome → Context
context_of (next c) = c
context_of (abort status) = empty_context

next_inj : {c d : Context} → next c ≡ next d → c ≡ d
unfolding context_of
next_inj h = ap context_of h

abort≢next : (n : ℕ) (c : Context) → abort n ≢ next c
abort≢next n c h = cc

and_then-next :
    (o : Outcome) (f : Context → Outcome) (c : Context)
    → and_then o f ≡ next c
    → (d : Context) × (o ≡ next d) × (f d ≡ next c)
unfolding and_then
and_then-next (next d) f c h = (d, refl, h)
and_then-next (abort n) f c h = cc

decide-next : (c d : Context) (q : Result Bool) → decide c q ≡ next d → (c ≡ d) × (q ≡ ok true)
unfolding decide
decide-next c d (ok true) h = (next_inj h, refl)
decide-next c d (ok false) h = cc
decide-next c d failed h = cc
decide-next c d access_denied h = cc

-- The user of the context whom the check allows.
pub Allows : (Claims → Result Bool) → Context → Type 0
Allows has c = (claims : Claims) × (c.identity ≡ some claims) × (has claims ≡ ok true)

require_permission-Allows :
    (has : ℕ → ℕ → ℕ → ℕ → Result Bool) (resource action : ℕ) (r : Request) (c d : Context)
    → require_permission has resource action r c ≡ next d
    → (c ≡ d) × Allows (λ claims. has claims.user_id resource action claims.current_domain_id) c
unfolding require_permission Allows
require_permission-Allows has resource action r c d h = by_identity c.identity refl h
  where
    Goal : Type 0
    Goal =
        (c ≡ d) × Allows (λ claims. has claims.user_id resource action claims.current_domain_id) c

    by_identity :
        (o : Option Claims)
        → c.identity ≡ o
        → elim o [
          | none ↦ abort 401
          | some claims ↦ decide c (has claims.user_id resource action claims.current_domain_id)
        ]
          ≡ next d
        → Goal
    by_identity none e k = cc
    by_identity (some claims) e k =
        let (f, g) =
          decide-next c d (has claims.user_id resource action claims.current_domain_id) k in
        (f, (claims, e, g))

with_roles-identity :
    (c d : Context) (o : Option (List RoleCode)) → with_roles c o ≡ next d → c.identity ≡ d.identity
unfolding with_roles
with_roles-identity c d none h = ap (λ x. x.identity) (next_inj h)
with_roles-identity c d (some []) h = cc
with_roles-identity c d (some (x ∷ xs)) h = ap (λ y. y.identity) (next_inj h)

inject_user_role-identity :
    (codes : ℕ → Option (List RoleCode)) (r : Request) (c d : Context)
    → inject_user_role codes r c ≡ next d
    → c.identity ≡ d.identity
unfolding inject_user_role
inject_user_role-identity codes r c d h = by_identity c.identity h
  where
    by_identity :
        (o : Option Claims)
        → elim o [
          | none ↦ next c
          | some claims ↦
              if ltb 0 claims.user_id then with_roles c (codes claims.user_id) else next c
        ]
          ≡ next d
        → c.identity ≡ d.identity
    by_identity none k = ap (λ x. x.identity) (next_inj k)
    by_identity (some claims) k = by_test (ltb 0 claims.user_id) k
      where
        by_test :
            (b : Bool)
            → (if b then with_roles c (codes claims.user_id) else next c) ≡ next d
            → c.identity ≡ d.identity
        by_test true m = with_roles-identity c d (codes claims.user_id) m
        by_test false m = ap (λ x. x.identity) (next_inj m)

authenticated_identity :
    (parse : Bytes → Option Claims) (v : Option Validator) (r : Request) (c d : Context)
    → jwt_auth_middleware_with_api_token parse v r c ≡ next d
    → (claims : Claims) × (a : AuthType) × Identifies parse v (token_of r) claims a
      × (d.identity ≡ some claims)
unfolding Authenticated
authenticated_identity parse v r c d h =
    elim (jwt_auth_middleware_with_api_token-Authenticated parse v r c) [
      | inl (nonempty, (claims, a, i, e)) ↦
          (claims, a, i, ap (λ x. x.identity) (next_inj (sym h ∙ e)))
      | inr e ↦ elim (abort≢next 401 d (sym e ∙ h)) [ ]
    ]

same_user :
    (o : Option Claims) (claims other : Claims) (f : Claims → Result Bool)
    → o ≡ some claims
    → o ≡ some other
    → f other ≡ ok true
    → f claims ≡ ok true
same_user o claims other f h k e = subst (λ x. f x ≡ ok true) (some_inj (sym k ∙ h)) e
  where
    from_some : Option Claims → Claims
    from_some none = claims
    from_some (some x) = x

    some_inj : {x y : Claims} → some x ≡ some y → x ≡ y
    some_inj p = ap from_some p

-- A request gets past the guards of a route only if its token identifies a user whom the permission
-- service allows the action on the resource, in the domain of the token; the handler gets this user.
pub route-Allows :
    (db : PermissionDb) (parse : Bytes → Option Claims) (v : Option Validator)
    (codes : ℕ → Option (List RoleCode)) (resource action : ℕ) (r : Request) (c : Context)
    → chain
        (jwt_auth_middleware_with_api_token parse v
          ∷ inject_user_role codes
          ∷ require_permission (has_permission db) resource action
          ∷ [])
        r
        empty_context
      ≡ next c
    → (claims : Claims) × (a : AuthType) × Identifies parse v (token_of r) claims a
      × (c.identity ≡ some claims)
      × (has_permission db claims.user_id resource action claims.current_domain_id ≡ ok true)
unfolding chain Allows
route-Allows db parse v codes resource action r c h =
    let (c1, e1, h1) =
      and_then-next (jwt_auth_middleware_with_api_token parse v r empty_context) _ c h in
    let (c2, e2, h2) = and_then-next (inject_user_role codes r c1) _ c h1 in
    let (c3, e3, h3) =
      and_then-next (require_permission (has_permission db) resource action r c2) _ c h2 in
    let (claims, a, i, e) = authenticated_identity parse v r empty_context c1 e1 in
    let (same, (other, f, g)) =
      require_permission-Allows (has_permission db) resource action r c2 c3 e3 in
    let inherited = inject_user_role-identity codes r c1 c2 e2 in
    (
      claims,
      a,
      i,
      ap (λ x. x.identity) (sym (next_inj h3))
          ∙ ap (λ x. x.identity) (sym same)
          ∙ sym inherited
          ∙ e,
      same_user c2.identity claims other
          (λ x. has_permission db x.user_id resource action x.current_domain_id) (sym inherited ∙ e)
          f g,
    )

-- Past the guard of a data source, the request is that of an authenticated user who has the permission
-- on the data source that the request names, first by its path and else by its body; a request that
-- names none goes past it only with a method other than POST, PUT and PATCH.
pub datasource_permission_middleware-Allows :
    (has : ℕ → ℕ → Result Bool) (r : Request) (c d : Context)
    → datasource_permission_middleware has r c ≡ next d
    → (c ≡ d)
      × (claims : Claims) × (c.identity ≡ some claims)
      × (((datasource_id_of r ≡ 0) × (must_name r.method ≡ false))
          ⊎ ((datasource_id_of r ≢ 0) × (has claims.user_id (datasource_id_of r) ≡ ok true)))
unfolding datasource_permission_middleware
datasource_permission_middleware-Allows has r c d h = by_identity c.identity refl h
  where
    Shown : Claims → Type 0
    Shown claims =
        ((datasource_id_of r ≡ 0) × (must_name r.method ≡ false))
        ⊎ ((datasource_id_of r ≢ 0) × (has claims.user_id (datasource_id_of r) ≡ ok true))

    by_method :
        (claims : Claims) (b : Bool)
        → must_name r.method ≡ b
        → datasource_id_of r ≡ 0
        → (if b then abort 400 else next c) ≡ next d
        → (c ≡ d) × Shown claims
    by_method claims true e z k = cc
    by_method claims false e z k = (next_inj k, inl (z, e))

    by_id :
        (claims : Claims) (b : Bool)
        → (datasource_id_of r == 0) ≡ b
        → (if b
            then if must_name r.method then abort 400 else next c
            else decide c (has claims.user_id (datasource_id_of r)))
          ≡ next d
        → (c ≡ d) × Shown claims
    by_id claims true e k =
        by_method claims (must_name r.method) refl ((==_iff (datasource_id_of r) 0).0 e) k
    by_id claims false e k =
        let (f, g) = decide-next c d (has claims.user_id (datasource_id_of r)) k in
        (f, inr (ground arith, g))

    by_identity :
        (o : Option Claims)
        → c.identity ≡ o
        → elim o [
          | none ↦ abort 401
          | some claims ↦
              if datasource_id_of r == 0
              then if must_name r.method then abort 400 else next c
              else decide c (has claims.user_id (datasource_id_of r))
        ]
          ≡ next d
        → (c ≡ d) × (claims : Claims) × (c.identity ≡ some claims) × Shown claims
    by_identity none e k = cc
    by_identity (some claims) e k =
        let (f, g) = by_id claims (datasource_id_of r == 0) refl k in (f, claims, e, g)
