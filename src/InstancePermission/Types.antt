-- ===== src/InstancePermission/Types.antt =====
-- scheduler/internal/datasource/permission.go and the tables of
-- scheduler/internal/service/instance_permission.go: the types of permission that can be granted on a
-- data source or a webhook, and which type includes which. The maps of the source are functions from a
-- key to an Option; the order in which Go ranges over the keys of a map is an argument.
use bdopsflow.Prelude.{
  ℕ, suc, Bool, true, false, ◌||◌, List, [], ◌∷◌, Option, none, some, if◌then◌else◌, ◌==◌, leb, any,
}

-- `other 0` is the empty text, and `other (n + 1)` any text that is no key of a map.
pub data PermType : Type 0 where
  read query download update delete manage trigger : PermType
  other : ℕ → PermType

unfoldable pub code : PermType → ℕ
code read = 0
code query = 1
code download = 2
code update = 3
code delete = 4
code manage = 5
code trigger = 6
code (other n) = suc (suc (suc (suc (suc (suc (suc n))))))

unfoldable pub same : PermType → PermType → Bool
unfolding code
same p q = code p == code q

unfoldable pub contains : List PermType → PermType → Bool
contains ps p = any (same p) ps

-- `permissionIncludes` and `webhookPermissionIncludes`.
unfoldable pub permission_includes : PermType → Option (List PermType)
permission_includes read = some []
permission_includes query = some (read ∷ [])
permission_includes download = some (query ∷ read ∷ [])
permission_includes update = some (download ∷ query ∷ read ∷ [])
permission_includes delete = some []
permission_includes manage = some (update ∷ download ∷ query ∷ read ∷ delete ∷ [])
permission_includes trigger = none
permission_includes (other n) = none

unfoldable pub webhook_permission_includes : PermType → Option (List PermType)
webhook_permission_includes read = some []
webhook_permission_includes trigger = some (read ∷ [])
webhook_permission_includes update = some (read ∷ [])
webhook_permission_includes delete = some []
webhook_permission_includes manage = some (update ∷ read ∷ delete ∷ trigger ∷ [])
webhook_permission_includes query = none
webhook_permission_includes download = none
webhook_permission_includes (other n) = none

-- `validPermissionTypes`.
unfoldable pub is_valid_permission_type : PermType → Bool
is_valid_permission_type trigger = false
is_valid_permission_type (other n) = false
is_valid_permission_type read = true
is_valid_permission_type query = true
is_valid_permission_type download = true
is_valid_permission_type update = true
is_valid_permission_type delete = true
is_valid_permission_type manage = true

unfoldable pub with_self : PermType → Option (List PermType) → List PermType
with_self p none = []
with_self p (some ps) = p ∷ ps

unfoldable pub get_included_permissions : PermType → List PermType
unfolding with_self
get_included_permissions p = with_self p (permission_includes p)

-- Does the entry of a key include the type?
unfoldable pub entry_has : Option (List PermType) → PermType → Bool
entry_has none p = false
entry_has (some ps) p = contains ps p

-- The loop over the keys: those that are the type or include it.
unfoldable pub including :
    (PermType → Option (List PermType)) → List PermType → PermType → List PermType
including includes [] p = []
including includes (k ∷ ks) p =
    let rest = including includes ks p in
    if same k p || entry_has (includes k) p then k ∷ rest else rest

unfoldable pub get_effective_permissions : List PermType → PermType → List PermType
get_effective_permissions keys p =
    if is_valid_permission_type p then including permission_includes keys p else p ∷ []

unfoldable pub unless_empty : List PermType → PermType → List PermType
unless_empty [] p = p ∷ []
unless_empty (q ∷ qs) p = q ∷ qs

unfoldable pub get_webhook_effective_permissions : List PermType → PermType → List PermType
unfolding unless_empty
get_webhook_effective_permissions keys p =
    unless_empty (including webhook_permission_includes keys p) p

-- `permissionWeight`.
unfoldable pub permission_weight : PermType → Option ℕ
permission_weight manage = some 100
permission_weight update = some 50
permission_weight download = some 40
permission_weight query = some 30
permission_weight read = some 20
permission_weight delete = some 10
permission_weight trigger = none
permission_weight (other n) = none

unfoldable pub heavier : Option ℕ → Option ℕ → PermType → PermType → PermType
heavier none wb a b = b
heavier (some wa) none a b = a
heavier (some wa) (some wb) a b = if leb wb wa then a else b

unfoldable pub highest_permission : PermType → PermType → PermType
unfolding heavier
highest_permission a b = heavier (permission_weight a) (permission_weight b) a b
