-- ===== src/InstancePermission.antt =====
-- scheduler/internal/service/instance_permission.go: permissions on one data source or one webhook.
-- The tables of the database are a parameter, `Instances`, with one field for each SQL statement,
-- over a state `S`; data sources and webhooks have a table each. The time stamps are left out.
pub mod Types
pub mod Inclusion
pub mod Access
pub mod Granting
pub mod Levels
use bdopsflow.Prelude.{
  ℕ, Bool, true, false, ◌&&◌, ◌||◌, List, [], ◌∷◌, Option, none, some, if◌then◌else◌, ◌==◌,
}
use bdopsflow.Permission.{
  Rows, fails, rows, Result, ok, failed, access_denied, ◌>>=◌, PermissionDb, is_system_admin,
  is_domain_admin, positive, positives, readable,
}
use bdopsflow.InstancePermission.Types.{
  PermType, read, query, other, same, get_effective_permissions, get_webhook_effective_permissions,
  highest_permission,
}

-- A row of the permission table: an instance, a role or a user, a type, and who granted it.
pub record Grant : Type 0 where
  pub instance_id : ℕ
  pub role_id : Option ℕ
  pub user_id : Option ℕ
  pub permission_type : PermType
  pub granted_by : ℕ

-- The statements: the domain and the creator of an instance; the number of grants on an instance, to a
-- user or one of its roles, of one of the types; the instances with such a grant; the instances among a
-- list with the type of each grant; the insertion of a grant, and the deletion of one by its id.
pub record Instances (S : Type 0) : Type 0 where
  pub domain_of : ℕ → S → Rows ℕ
  pub creator_of : ℕ → S → Rows ℕ
  pub grant_count : ℕ → ℕ → List PermType → S → Rows ℕ
  pub granted_ids : ℕ → List PermType → S → Rows ℕ
  pub granted_types : List ℕ → ℕ → S → Rows (ℕ × PermType)
  pub insert_grant : Grant → S → S × Result (Unit {0})
  pub delete_grant : ℕ → S → S × Result (Unit {0})

-- The row with the domain: an instance that is not there is `ErrInstancePermissionDenied`.
unfoldable pub read_domain : Rows ℕ → Result ℕ
read_domain fails = failed
read_domain (rows []) = access_denied
read_domain (rows (none ∷ rs)) = failed
read_domain (rows (some d ∷ rs)) = ok d

-- The first row is there and passes the test; a row that cannot be read does not.
unfoldable pub first_row : (ℕ → Bool) → Rows ℕ → Result Bool
first_row p fails = failed
first_row p (rows []) = ok false
first_row p (rows (none ∷ rs)) = ok false
first_row p (rows (some n ∷ rs)) = ok (p n)

-- The rows of `GetUserDatasourcePermissionLevels`, into a map from ids to types.
pub set_level : List (ℕ × PermType) → ℕ → PermType → List (ℕ × PermType)
set_level [] d p = (d, p) ∷ []
set_level (e ∷ es) d p =
    let rest = set_level es d p in if e.0 == d then (d, highest_permission e.1 p) ∷ es else e ∷ rest

unfoldable pub counts : ℕ × PermType → Bool
counts (d, p) = if positive d then (if same p (other 0) then false else true) else false

pub levels : List (ℕ × PermType) → List (ℕ × PermType) → List (ℕ × PermType)
levels acc [] = acc
levels acc (r ∷ rs) = if counts r then levels (set_level acc r.0 r.1) rs else levels acc rs

read_levels : Rows (ℕ × PermType) → Result (List (ℕ × PermType))
read_levels fails = failed
read_levels (rows rs) = ok (levels [] (readable rs))

read_ids : Rows ℕ → Result (List ℕ)
read_ids fails = failed
read_ids (rows rs) = ok (positives (readable rs))

module _ {S : Type 0} (db : PermissionDb) (table : Instances S) where
  -- The common steps of `HasDatasourcePermission` and `HasWebhookPermission`: `bypass` tells whether a
  -- domain administrator has the type, and `effective` lists the types of which a grant is enough.
  unfoldable pub has_instance_permission : Bool → List PermType → ℕ → ℕ → S → Result Bool
  has_instance_permission bypass effective user_id instance_id s = do
    admin ← is_system_admin db user_id
    elim admin [
      | true ↦ ok true
      | false ↦ do
        domain_id ← read_domain (table.domain_of instance_id s)
        domain_admin ← is_domain_admin db user_id domain_id
        elim (domain_admin && bypass) [
          | true ↦ ok true
          | false ↦ do
            creator ← first_row (λ c. c == user_id) (table.creator_of instance_id s)
            elim creator [
              | true ↦ ok true
              | false ↦ first_row positive (table.grant_count instance_id user_id effective s)
            ]
        ]
    ]

  -- `keys` is the order in which the range over the map of included types meets its keys.
  unfoldable pub has_datasource_permission : List PermType → ℕ → ℕ → PermType → S → Result Bool
  has_datasource_permission keys user_id datasource_id p s =
      has_instance_permission (same p read || same p query) (get_effective_permissions keys p)
        user_id datasource_id s

  unfoldable pub has_webhook_permission : List PermType → ℕ → ℕ → PermType → S → Result Bool
  has_webhook_permission keys user_id webhook_id p s =
      has_instance_permission (same p read) (get_webhook_effective_permissions keys p) user_id
        webhook_id s

module _ {S : Type 0} (table : Instances S) where
  unfoldable pub get_user_datasource_ids : List PermType → ℕ → PermType → S → Result (List ℕ)
  unfolding read_ids
  get_user_datasource_ids keys user_id p s =
      read_ids (table.granted_ids user_id (get_effective_permissions keys p) s)

  unfoldable pub get_user_datasource_permission_levels :
      ℕ → List ℕ → S → Result (List (ℕ × PermType))
  unfolding read_levels
  get_user_datasource_permission_levels user_id [] s = ok []
  get_user_datasource_permission_levels user_id (d ∷ ds) s =
      read_levels (table.granted_types (d ∷ ds) user_id s)

  -- `GrantDatasourcePermission` and `GrantWebhookPermission`, on the table of each.
  unfoldable pub grant_permission :
      ℕ → Option ℕ → Option ℕ → PermType → ℕ → S → S × Result (Unit {0})
  grant_permission instance_id role_id user_id permission_type granted_by s =
      table.insert_grant
        (record {
          instance_id = instance_id;
          role_id = role_id;
          user_id = user_id;
          permission_type = permission_type;
          granted_by = granted_by;
        })
        s

  -- `RevokeDatasourcePermission` and `RevokeWebhookPermission`.
  unfoldable pub revoke_permission : ℕ → S → S × Result (Unit {0})
  revoke_permission perm_id s = table.delete_grant perm_id s
