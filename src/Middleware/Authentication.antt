-- ===== src/Middleware/Authentication.antt =====
-- Who a request is taken for by the two authentication middlewares of
-- scheduler/internal/middleware/auth.go, and the role that is put into the context.
use bdopsflow.Prelude.{
  ℕ, ◌<◌, ◌≡◌, ◌≢◌, ◌⊎◌, inl, inr, refl, sym, ap, subst, Bool, true, false, List, [], ◌∷◌, Option,
  none, some, if◌then◌else◌, any, Bool-cases, ltb, ltb→lt,
}
use bdopsflow.Middleware.{
  Bytes, Request, Claims, Context, Outcome, next, abort, AuthType, jwt, api_token, Validator,
  token_of, is_api_token, jwt_auth_middleware, jwt_auth_middleware_with_api_token, RoleCode,
  system_admin, domain_admin, user, other_code, role_from, by_token, with_user, with_info,
  try_api_token, with_claims,
}

-- A token identifies a user: it is a JWT with these claims, or an API token of the user.
pub data Identifies (parse : Bytes → Option Claims) (v : Option Validator) (t : Bytes)
    : Claims → AuthType → Type 0 where
  by_jwt : {claims : Claims} → parse t ≡ some claims → Identifies parse v t claims jwt
  by_api :
      {w : Validator} {u : ℕ} {name real : Bytes} {domain : ℕ}
      → v ≡ some w
      → is_api_token t ≡ true
      → w.validate_token t ≡ some u
      → 0 < u
      → w.get_token_user_info u ≡ some (name, real, domain)
      → Identifies parse v t
          (record { user_id = u; username = name; real_name = real; current_domain_id = domain })
          api_token

module _ (parse : Bytes → Option Claims) (v : Option Validator) where
  -- The request goes on as the user that its token identifies.
  unfoldable pub Authenticated : Bytes → Context → Outcome → Type 0
  Authenticated t c o =
      (claims : Claims) × (a : AuthType) × Identifies parse v t claims a
      × (o ≡ next (record c { identity = some claims; auth_type = some a }))

  by_info :
      (w : Validator) (t : Bytes) (c : Context) (u : ℕ) (o : Option (Bytes × Bytes × ℕ))
      → v ≡ some w
      → is_api_token t ≡ true
      → w.validate_token t ≡ some u
      → 0 < u
      → w.get_token_user_info u ≡ o
      → Authenticated t c (with_info parse c u o) ⊎ (with_info parse c u o ≡ abort 401)
  unfolding Authenticated with_info
  by_info w t c u none ev ea eu pos ei = inr refl
  by_info w t c u (some (name, real, domain)) ev ea eu pos ei =
      inl (_, api_token, by_api ev ea eu pos ei, refl)

  by_user :
      (w : Validator) (t : Bytes) (c : Context) (o : Option ℕ)
      → v ≡ some w
      → is_api_token t ≡ true
      → w.validate_token t ≡ o
      → Authenticated t c (with_user parse w c o) ⊎ (with_user parse w c o ≡ abort 401)
  unfolding with_user
  by_user w t c none ev ea eo = inr refl
  by_user w t c (some u) ev ea eo = elim (Bool-cases (ltb 0 u)) [
    | inl pos ↦
        subst
          (λ b.
            Authenticated t c
              (if b then with_info parse c u (w.get_token_user_info u) else abort 401)
            ⊎ ((if b then with_info parse c u (w.get_token_user_info u) else abort 401)
                ≡ abort 401))
          (sym pos) (by_info w t c u (w.get_token_user_info u) ev ea eo (ltb→lt 0 u pos) refl)
    | inr not_pos ↦
        inr
          (ap (λ b. if b then with_info parse c u (w.get_token_user_info u) else abort 401) not_pos)
  ]

  by_validator :
      (o : Option Validator) (t : Bytes) (c : Context)
      → v ≡ o
      → Authenticated t c (try_api_token parse o t c) ⊎ (try_api_token parse o t c ≡ abort 401)
  unfolding try_api_token
  by_validator none t c ev = inr refl
  by_validator (some w) t c ev = elim (Bool-cases (is_api_token t)) [
    | inl yes_api ↦
        subst
          (λ b.
            Authenticated t c (if b then with_user parse w c (w.validate_token t) else abort 401)
            ⊎ ((if b then with_user parse w c (w.validate_token t) else abort 401) ≡ abort 401))
          (sym yes_api) (by_user w t c (w.validate_token t) ev yes_api refl)
    | inr no_api ↦
        inr (ap (λ b. if b then with_user parse w c (w.validate_token t) else abort 401) no_api)
  ]

  by_claims :
      (o : Option Claims) (t : Bytes) (c : Context)
      → parse t ≡ o
      → Authenticated t c (by_token parse v t c o) ⊎ (by_token parse v t c o ≡ abort 401)
  unfolding by_token Authenticated
  by_claims none t c e = by_validator v t c refl
  by_claims (some claims) t c e = inl (claims, jwt, by_jwt e, refl)

  -- A request goes on only as the user whom its token identifies, which is not empty, with the way of
  -- authentication in the context; every other request ends with 401.
  pub jwt_auth_middleware_with_api_token-Authenticated :
      (r : Request) (c : Context)
      → ((token_of r ≢ [])
          × Authenticated (token_of r) c (jwt_auth_middleware_with_api_token parse v r c))
        ⊎ (jwt_auth_middleware_with_api_token parse v r c ≡ abort 401)
  unfolding jwt_auth_middleware_with_api_token
  jwt_auth_middleware_with_api_token-Authenticated r c = by_text (token_of r)
    where
      Out : Bytes → Outcome
      Out t = elim t [ [] ↦ abort 401 | b ∷ bs ↦ by_token parse v (b ∷ bs) c (parse (b ∷ bs)) ]

      by_text : (t : Bytes) → ((t ≢ []) × Authenticated t c (Out t)) ⊎ (Out t ≡ abort 401)
      by_text [] = inr refl
      by_text (b ∷ bs) = elim (by_claims (parse (b ∷ bs)) (b ∷ bs) c refl) [
        | inl a ↦ inl (λ e. cc, a)
        | inr n ↦ inr n
      ]

-- Without a validator for API tokens the extended middleware differs from the plain one only in that
-- it notes the way of authentication.
pub jwt_auth_middleware-extended :
    (parse : Bytes → Option Claims) (r : Request) (c : Context)
    → jwt_auth_middleware_with_api_token parse none r c ≡ elim (jwt_auth_middleware parse r c) [
      | next d ↦ next (record d { auth_type = some jwt })
      | abort status ↦ abort status
    ]
unfolding jwt_auth_middleware_with_api_token jwt_auth_middleware try_api_token
jwt_auth_middleware-extended parse r c = by_text (token_of r)
  where
    note : Outcome → Outcome
    note (next d) = next (record d { auth_type = some jwt })
    note (abort status) = abort status

    by_claims :
        (t : Bytes) (o : Option Claims) → by_token parse none t c o ≡ note (with_claims parse c o)
    by_claims t none = refl
    by_claims t (some claims) = refl

    by_text :
        (t : Bytes)
        → elim t [ [] ↦ abort 401 | b ∷ bs ↦ by_token parse none (b ∷ bs) c (parse (b ∷ bs)) ]
          ≡ note (elim t [ [] ↦ abort 401 | b ∷ bs ↦ with_claims parse c (parse (b ∷ bs)) ])
    by_text [] = refl
    by_text (b ∷ bs) = by_claims (b ∷ bs) (parse (b ∷ bs))

abbrev pub is_system : RoleCode → Bool
is_system system_admin = true
is_system _ = false

abbrev pub is_domain : RoleCode → Bool
is_domain domain_admin = true
is_domain _ = false

role_from-domain :
    (cs : List RoleCode)
    → role_from domain_admin cs ≡ (if any is_system cs then system_admin else domain_admin)
unfolding role_from
role_from-domain [] = refl
role_from-domain (system_admin ∷ cs) = refl
role_from-domain (domain_admin ∷ cs) = role_from-domain cs
role_from-domain (user ∷ cs) = role_from-domain cs
role_from-domain (other_code n ∷ cs) = role_from-domain cs

-- The role put into the context is the highest of the codes: that of a system administrator if it is
-- among them, else that of a domain administrator, else that of a user.
pub role_from-highest :
    (cs : List RoleCode)
    → role_from user cs
      ≡ (if any is_system cs then system_admin else if any is_domain cs then domain_admin else user)
unfolding role_from
role_from-highest [] = refl
role_from-highest (system_admin ∷ cs) = refl
role_from-highest (domain_admin ∷ cs) = role_from-domain cs
role_from-highest (user ∷ cs) = role_from-highest cs
role_from-highest (other_code n ∷ cs) = role_from-highest cs
