-- ===== src/Tests/Requests.antt =====
-- The theorems on the middleware at concrete requests.
use bdopsflow.Prelude.{ℕ, ◌≡◌, ◌≢◌, ◌⊎◌, refl, Bool, true, List, [], ◌∷◌, Option, none, some, ◌==◌}
use bdopsflow.Permission.{Result, ok, has_permission, is_system_admin, read_count}
use bdopsflow.Middleware.{
  Bytes, Request, Claims, Context, next, abort, AuthType, jwt, token_of, post,
  jwt_auth_middleware_with_api_token, RoleCode, user, role_from, inject_user_role,
  require_permission, datasource_permission_middleware, datasource_id_of, chain, empty_context,
}
use bdopsflow.Middleware.Authentication.{
  Identifies, Authenticated, jwt_auth_middleware_with_api_token-Authenticated,
}
use bdopsflow.Middleware.Guards.{route-Allows}
use bdopsflow.Tests.Rights.{admin_db}

abbrev claims : Claims
claims = record { user_id = 7; username = []; real_name = []; current_domain_id = 4 }

abbrev parse : Bytes → Option Claims
parse t = some claims

abbrev request : Request
request = record {
  method = post;
  authorization = [];
  query_token = 5 ∷ [];
  id_param = some 3;
  body_id = none;
}

abbrev codes : ℕ → Option (List RoleCode)
codes u = some (user ∷ [])

jwt_auth_middleware_with_api_token-Authenticated_example :
    ((token_of request ≢ [])
      × Authenticated parse none
          (token_of request)
          empty_context
          (jwt_auth_middleware_with_api_token parse none request empty_context))
    ⊎ (jwt_auth_middleware_with_api_token parse none request empty_context ≡ abort 401)
jwt_auth_middleware_with_api_token-Authenticated_example =
    jwt_auth_middleware_with_api_token-Authenticated parse none request empty_context

abbrev reached : Context
reached = record { identity = some claims; auth_type = some jwt; role = some user }

passes :
    chain
      (jwt_auth_middleware_with_api_token parse none
        ∷ inject_user_role codes
        ∷ require_permission (has_permission admin_db) 1 2
        ∷ [])
      request
      empty_context
    ≡ next reached
unfolding chain jwt_auth_middleware_with_api_token inject_user_role require_permission
    has_permission is_system_admin read_count token_of role_from
passes = refl

route-Allows_example :
    (c : Claims) × (a : AuthType) × Identifies parse none (token_of request) c a
    × (reached.identity ≡ some c)
    × (has_permission admin_db c.user_id 1 2 c.current_domain_id ≡ ok true)
route-Allows_example = route-Allows admin_db parse none codes 1 2 request reached passes

abbrev only_three : ℕ → ℕ → Result Bool
only_three u d = ok (d == 3)

guarded : datasource_permission_middleware only_three request reached ≡ next reached
unfolding datasource_permission_middleware datasource_id_of
guarded = refl
