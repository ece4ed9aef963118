-- ===== src/Middleware.antt =====
-- scheduler/internal/middleware/auth.go: what stands before the handlers of the HTTP API. A request is
-- a record of the parts that are read; `Context` has what the middleware puts into the gin context. A
-- middleware hands the request on with a context (`c.Next()`) or ends it with a status (`c.JSON` and
-- `c.Abort()`). Token signatures, the JSON body and the services of other packages are parameters.
pub mod Authentication
pub mod Guards
use bdopsflow.Prelude.{
  ℕ, zero, suc, Bool, true, false, ◌&&◌, ◌||◌, List, [], ◌∷◌, Option, none, some, if◌then◌else◌,
  ◌==◌, ltb,
}
use bdopsflow.Permission.{Result, ok, failed, access_denied}

abbrev pub Bytes : Type 0
Bytes = List ℕ

pub data Method : Type 0 where
  post put patch other_method : Method

-- `id_param` is the number in the path, none if there is no text; `body_id` is the `datasource_id` of
-- the body, none if the body cannot be read.
pub record Request : Type 0 where
  pub method : Method
  pub authorization : Bytes
  pub query_token : Bytes
  pub id_param : Option ℕ
  pub body_id : Option ℕ

pub data AuthType : Type 0 where
  jwt api_token : AuthType

pub data RoleCode : Type 0 where
  system_admin domain_admin user : RoleCode
  other_code : ℕ → RoleCode

pub record Claims : Type 0 where
  pub user_id : ℕ
  pub username : Bytes
  pub real_name : Bytes
  pub current_domain_id : ℕ

-- `identity` has the four keys that are set together.
pub record Context : Type 0 where
  pub identity : Option Claims
  pub auth_type : Option AuthType
  pub role : Option RoleCode

pub data Outcome : Type 0 where
  next : Context → Outcome
  abort : ℕ → Outcome

abbrev pub Handler : Type 0
Handler = Request → Context → Outcome

-- The handlers of a route, in order, up to the first that ends the request.
and_then : Outcome → (Context → Outcome) → Outcome
and_then (next c) f = f c
and_then (abort status) f = abort status

unfoldable pub chain : List Handler → Handler
unfolding and_then
chain [] r c = next c
chain (h ∷ hs) r c = and_then (h r c) (chain hs r)

abbrev pub empty_context : Context
empty_context = record { identity = none; auth_type = none; role = none }

-- `strings.SplitN(header, " ", 2)` with two parts.
cut : Bytes → Option (Bytes × Bytes)
cut [] = none
cut (b ∷ bs) =
    let rest = cut bs in
    if b == 0x20 then some ([], bs) else elim rest [ none ↦ none | some p ↦ some (b ∷ p.0, p.1) ]

bytes_eq : Bytes → Bytes → Bool
bytes_eq [] [] = true
bytes_eq [] (y ∷ ys) = false
bytes_eq (x ∷ xs) [] = false
bytes_eq (x ∷ xs) (y ∷ ys) = if x == y then bytes_eq xs ys else false

has_prefix : Bytes → Bytes → Bool
has_prefix s [] = true
has_prefix [] (p ∷ ps) = false
has_prefix (c ∷ s) (p ∷ ps) = if c == p then has_prefix s ps else false

-- The texts "Bearer" and "bdf_".
bearer : Bytes
bearer = 0x42 ∷ 0x65 ∷ 0x61 ∷ 0x72 ∷ 0x65 ∷ 0x72 ∷ []

api_prefix : Bytes
api_prefix = 0x62 ∷ 0x64 ∷ 0x66 ∷ 0x5f ∷ []

after_bearer : Option (Bytes × Bytes) → Bytes
after_bearer none = []
after_bearer (some (scheme, token)) = if bytes_eq scheme bearer then token else []

or_else : Bytes → Bytes → Bytes
or_else [] bs = bs
or_else (x ∷ xs) bs = x ∷ xs

-- The token of a request: from the header, else from the query.
unfoldable pub token_of : Request → Bytes
unfolding or_else after_bearer cut bearer bytes_eq
token_of r = or_else (after_bearer (cut r.authorization)) r.query_token

unfoldable pub is_api_token : Bytes → Bool
unfolding has_prefix api_prefix
is_api_token t = has_prefix t api_prefix

pub record Validator : Type 0 where
  pub validate_token : Bytes → Option ℕ
  pub get_token_user_info : ℕ → Option (Bytes × Bytes × ℕ)

module _ (parse_token : Bytes → Option Claims) where
  pub with_claims : Context → Option Claims → Outcome
  with_claims c none = abort 401
  with_claims c (some claims) = next (record c { identity = some claims })

  unfoldable pub jwt_auth_middleware : Handler
  unfolding with_claims
  jwt_auth_middleware r c = elim (token_of r) [
    | [] ↦ abort 401
    | b ∷ bs ↦ with_claims c (parse_token (b ∷ bs))
  ]

  pub with_info : Context → ℕ → Option (Bytes × Bytes × ℕ) → Outcome
  with_info c user_id none = abort 401
  with_info c user_id (some (username, real_name, domain_id)) = next (record c {
    identity = some (record {
      user_id = user_id;
      username = username;
      real_name = real_name;
      current_domain_id = domain_id;
    });
    auth_type = some api_token;
  })

  pub with_user : Validator → Context → Option ℕ → Outcome
  with_user v c none = abort 401
  with_user v c (some user_id) =
      if ltb 0 user_id then with_info c user_id (v.get_token_user_info user_id) else abort 401

  pub try_api_token : Option Validator → Bytes → Context → Outcome
  try_api_token none t c = abort 401
  try_api_token (some v) t c =
      if is_api_token t then with_user v c (v.validate_token t) else abort 401

  -- JWT first, and an API token where that fails.
  pub by_token : Option Validator → Bytes → Context → Option Claims → Outcome
  by_token v t c (some claims) = next (record c { identity = some claims; auth_type = some jwt })
  by_token v t c none = try_api_token v t c

  unfoldable pub jwt_auth_middleware_with_api_token : Option Validator → Handler
  unfolding by_token
  jwt_auth_middleware_with_api_token v r c = elim (token_of r) [
    | [] ↦ abort 401
    | b ∷ bs ↦ by_token v (b ∷ bs) c (parse_token (b ∷ bs))
  ]

-- The loop over the role codes; `system_admin` ends it.
unfoldable pub role_from : RoleCode → List RoleCode → RoleCode
role_from role [] = role
role_from role (system_admin ∷ cs) = system_admin
role_from role (domain_admin ∷ cs) =
    role_from (elim role [ system_admin ↦ system_admin | _ ↦ domain_admin ]) cs
role_from role (user ∷ cs) = role_from role cs
role_from role (other_code n ∷ cs) = role_from role cs

with_roles : Context → Option (List RoleCode) → Outcome
unfolding role_from
with_roles c none = next c
with_roles c (some []) = abort 401
with_roles c (some (r ∷ rs)) = next (record c { role = some (role_from user (r ∷ rs)) })

unfoldable pub inject_user_role : (ℕ → Option (List RoleCode)) → Handler
unfolding with_roles
inject_user_role get_user_role_codes r c = elim c.identity [
  | none ↦ next c
  | some claims ↦
      if ltb 0 claims.user_id then with_roles c (get_user_role_codes claims.user_id) else next c
]

-- The answer of a permission service: an error is 500, a refusal 403.
decide : Context → Result Bool → Outcome
decide c (ok true) = next c
decide c (ok false) = abort 403
decide c failed = abort 500
decide c access_denied = abort 500

unfoldable pub require_system_admin : (ℕ → Result Bool) → Handler
unfolding decide
require_system_admin is_admin r c = elim c.identity [
  | none ↦ abort 401
  | some claims ↦ decide c (is_admin claims.user_id)
]

unfoldable pub require_permission : (ℕ → ℕ → ℕ → ℕ → Result Bool) → ℕ → ℕ → Handler
unfolding decide
require_permission has_permission resource action r c = elim c.identity [
  | none ↦ abort 401
  | some claims ↦ decide c (has_permission claims.user_id resource action claims.current_domain_id)
]

-- `has` is the check of the type of resource; for any other type the source answers false.
unfoldable pub require_instance_permission : (ℕ → ℕ → Result Bool) → (Request → ℕ) → Handler
unfolding decide
require_instance_permission has get_id r c = elim c.identity [
  | none ↦ abort 401
  | some claims ↦ if get_id r == 0 then abort 400 else decide c (has claims.user_id (get_id r))
]

or_zero : Option ℕ → ℕ
or_zero none = 0
or_zero (some n) = n

unfoldable pub datasource_id_of : Request → ℕ
unfolding or_zero
datasource_id_of r = if or_zero r.id_param == 0 then or_zero r.body_id else or_zero r.id_param

unfoldable pub must_name : Method → Bool
must_name post = true
must_name put = true
must_name patch = true
must_name other_method = false

unfoldable pub datasource_permission_middleware : (ℕ → ℕ → Result Bool) → Handler
unfolding decide
datasource_permission_middleware has r c = elim c.identity [
  | none ↦ abort 401
  | some claims ↦
      if datasource_id_of r == 0
      then if must_name r.method then abort 400 else next c
      else decide c (has claims.user_id (datasource_id_of r))
]
