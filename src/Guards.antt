-- ===== src/Guards.antt =====
-- The guards of src/auth: API keys, roles, and the ownership of resources.
pub mod Access
pub mod Rotation
pub mod JwtStrategy
pub mod RevokeRoute
pub mod MerchantRoutes
pub mod Kept
pub mod Isolated
mod Tests
use orbit_stream_backend.Common.{
  ℕ, ◌==◌, Bool, true, false, not, ◌&&◌, ◌||◌, List, [], ◌∷◌, ◌++◌, Option, none, some,
  if◌then◌else◌, find?, any, Result, ok, err,
}
use orbit_stream_backend.Common.Text.{Text, codes, starts_with, slice, is_empty}
use orbit_stream_backend.Store.{Session, has_id}
use orbit_stream_backend.Merchants.{
  Role, admin, merchant, viewer, Merchant, AuditLogEntry, Directory, Outside, has_merchant_id, log,
  find_by_wallet,
}
use orbit_stream_backend.Merchants.ApiKeys.{has_key_id, validate_api_key, revoke_api_key}
use orbit_stream_backend.Config.{ConfigError, JwtEnv, JwtSecrets, resolve_jwt_secrets}

-- `unauthorized` and `forbidden` are the exceptions of the guards, `server_error` any other exception,
-- `not_found` the exception of the handler.
pub data Refusal : Type 0 where
  unauthorized forbidden server_error not_found : Refusal

-- The fields of the request that the guards read or set; `merchant_id` is set by a guard before.
pub record GuardRequest : Type 0 where
  pub authorization : Option Text
  pub merchant_id : Option ℕ
  pub resource_id : Option ℕ
  pub ip : Option Text
  pub user_agent : Option Text

pub data ResourceType : Type 0 where
  api_key checkout_session merchant_resource : ResourceType

abbrev pub resource_name : ResourceType → Text
resource_name api_key = codes "api_key"
resource_name checkout_session = codes "checkout_session"
resource_name merchant_resource = codes "merchant"

-- The `?.` of a missing row.
abbrev pub field_of {ℓ} : {A : Type ℓ} → (A → ℕ) → Option A → Option ℕ
field_of f none = none
field_of f (some a) = some (f a)

unfoldable pub resolve_owner_id : ResourceType → ℕ → Directory → List Session → Option ℕ
resolve_owner_id api_key id d sessions =
    field_of (λ k. k.merchant_id) (find? (has_key_id id) d.api_keys)
resolve_owner_id checkout_session id d sessions =
    field_of (λ s. s.merchant_id) (find? (has_id id) sessions)
resolve_owner_id merchant_resource id d sessions =
    field_of (λ m. m.id) (find? (has_merchant_id id) d.merchants)

abbrev audit_entry : GuardRequest → ℕ → Text → Text → Option ℕ → Text → AuditLogEntry
audit_entry req merchant_id action resource_type resource_id reason = record {
  merchant_id = some merchant_id;
  action = action;
  resource_type = resource_type;
  resource_id = resource_id;
  ip_address = req.ip;
  user_agent = req.user_agent;
  details = some reason;
}

-- The decision, for the owner that was found.
abbrev pub check_owner :
    Outside
    → ResourceType
    → GuardRequest
    → ℕ
    → ℕ
    → Option ℕ
    → Directory
    → Result Refusal (Unit {0}) × Directory
check_owner out type req merchant_id id none d = (
  err forbidden,
  log out
      (audit_entry req merchant_id (codes "resource_not_found") (resource_name type) (some id)
        (codes "Resource does not exist"))
      d,
)
check_owner out type req merchant_id id (some owner) d =
    if owner == merchant_id then (ok tt, d) else (
      err forbidden,
      log out
          (audit_entry req merchant_id (codes "access_denied") (resource_name type) (some id)
            (codes "ownership_mismatch"))
          d,
    )

abbrev pub check_ids :
    Outside
    → ResourceType
    → GuardRequest
    → Option ℕ
    → Option ℕ
    → List Session
    → Directory
    → Result Refusal (Unit {0}) × Directory
check_ids out type req none resource_id sessions d = (err forbidden, d)
check_ids out type req (some merchant_id) none sessions d = (err forbidden, d)
check_ids out type req (some merchant_id) (some id) sessions d =
    check_owner out type req merchant_id id (resolve_owner_id type id d sessions) d

-- `ResourceOwnershipGuard.canActivate`, with the type that the decorator gives.
unfoldable pub ownership_guard :
    Outside
    → Option ResourceType
    → GuardRequest
    → List Session
    → Directory
    → Result Refusal (Unit {0}) × Directory
unfolding resolve_owner_id log
ownership_guard out none req sessions d = (ok tt, d)
ownership_guard out (some type) req sessions d =
    check_ids out type req req.merchant_id req.resource_id sessions d

abbrev pub same_role : Role → Role → Bool
same_role admin admin = true
same_role merchant merchant = true
same_role viewer viewer = true
same_role _ _ = false

abbrev pub role_name : Role → Text
role_name admin = codes "admin"
role_name merchant = codes "merchant"
role_name viewer = codes "viewer"

-- `requiredRoles.join(', ')`
abbrev pub join_roles : List Role → Text
join_roles [] = []
join_roles (r ∷ []) = role_name r
join_roles (r ∷ q ∷ rs) = role_name r ++ (codes ", " ++ join_roles (q ∷ rs))

abbrev pub role_reason : Role → List Role → Text
role_reason role roles =
    codes "Role '" ++ (role_name role ++ (codes "' not in [" ++ (join_roles roles ++ codes "]")))

-- The decision, for the row of the merchant.
abbrev pub check_role :
    Outside
    → List Role
    → GuardRequest
    → Option Merchant
    → Directory
    → Result Refusal (Unit {0}) × Directory
check_role out roles req none d = (err forbidden, d)
check_role out roles req (some m) d =
    if same_role m.role admin || any (same_role m.role) roles then (ok tt, d) else (
      err forbidden,
      log out
          (audit_entry req m.id (codes "insufficient_role") (codes "endpoint") req.resource_id
            (role_reason m.role roles))
          d,
    )

abbrev pub check_member :
    Outside
    → List Role
    → GuardRequest
    → Option ℕ
    → Directory
    → Result Refusal (Unit {0}) × Directory
check_member out roles req none d = (err forbidden, d)
check_member out roles req (some id) d =
    check_role out roles req (find? (has_merchant_id id) d.merchants) d

-- `RolesGuard.canActivate`, with the roles that the decorator gives.
unfoldable pub roles_guard :
    Outside → List Role → GuardRequest → Directory → Result Refusal (Unit {0}) × Directory
unfolding log
roles_guard out [] req d = (ok tt, d)
roles_guard out (role ∷ roles) req d = check_member out (role ∷ roles) req req.merchant_id d

abbrev pub bearer_token : Option Text → Option Text
bearer_token none = none
bearer_token (some h) = if starts_with h (codes "Bearer ") then some (slice h 7) else none

abbrev pub with_merchant : GuardRequest → Option ℕ → Result Refusal GuardRequest
with_merchant req none = err unauthorized
with_merchant req (some id) = ok (record req { merchant_id = some id })

abbrev pub check_key :
    (Text → Text) → GuardRequest → Directory → Option Text → Result Refusal GuardRequest
check_key sha256 req d none = err unauthorized
check_key sha256 req d (some key) = with_merchant req (validate_api_key sha256 key d)

-- `ApiKeyGuard.canActivate`: the request with its merchant.
unfoldable pub api_key_guard :
    (Text → Text) → GuardRequest → Directory → Result Refusal GuardRequest
unfolding validate_api_key
api_key_guard sha256 req d = check_key sha256 req d (bearer_token req.authorization)
