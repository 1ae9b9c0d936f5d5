-- ===== src/Merchants.antt =====
-- src/merchants/merchants.service.ts and src/audit/audit.service.ts on the tables merchants, api_keys and
-- audit_logs of src/db/schema.ts. SHA-256 and the random bytes are arguments.
pub mod Keys
pub mod ApiKeys
mod Tests
use orbit_stream_backend.Common.{
  ℕ, ◌==◌, Bool, true, false, not, ◌&&◌, ◌||◌, List, [], ◌∷◌, ◌++◌, Option, none, some,
  if◌then◌else◌, map, filter, find?, any, take, Result, ok, err,
}
use orbit_stream_backend.Common.Text.{Text, codes, text_eq, slice}

pub data Role : Type 0 where
  admin merchant viewer : Role

pub record Merchant : Type 0 where
  pub id : ℕ
  pub wallet_address : Text
  pub business_name : Text
  pub email : Text
  pub role : Role
  pub webhook_url : Option Text
  pub webhook_secret : Option Text
  pub logo_url : Option Text
  pub cors_origins : Option (List Text)

pub data Environment : Type 0 where
  testnet mainnet : Environment

pub record ApiKey : Type 0 where
  pub id : ℕ
  pub merchant_id : ℕ
  pub key_prefix : Text
  pub key_hash : Text
  pub environment : Environment
  pub is_active : Bool

-- A row of audit_logs; `details` is the reason, if one is given.
pub record AuditLogEntry : Type 0 where
  pub merchant_id : Option ℕ
  pub action : Text
  pub resource_type : Text
  pub resource_id : Option ℕ
  pub ip_address : Option Text
  pub user_agent : Option Text
  pub details : Option Text

pub record Directory : Type 0 where
  pub merchants : List Merchant
  pub api_keys : List ApiKey
  pub audit_logs : List AuditLogEntry

-- What a call reads from outside: the id of the row it inserts, the hex of the random bytes, SHA-256 in
-- hex, and whether the insertion into audit_logs fails.
pub record Outside : Type 0 where
  pub fresh_id : ℕ
  pub random_hex : Text
  pub sha256 : Text → Text
  pub audit_fails : Bool

-- `conflict` and `not_found` are the exceptions of the service, `database` an update or insertion that is refused, as for a unique
-- column, `missing_row` the reading of a field of undefined.
pub data MerchantError : Type 0 where
  conflict not_found database missing_row : MerchantError

-- `AuditService.log`, which swallows the failure.
unfoldable pub log : Outside → AuditLogEntry → Directory → Directory
log out entry d =
    if out.audit_fails then d else record d { audit_logs = d.audit_logs ++ entry ∷ [] }

abbrev pub sensitive_operation : ℕ → Text → Text → ℕ → AuditLogEntry
sensitive_operation merchant_id action resource_type resource_id = record {
  merchant_id = some merchant_id;
  action = action;
  resource_type = resource_type;
  resource_id = some resource_id;
  ip_address = none;
  user_agent = none;
  details = none;
}

abbrev pub has_merchant_id : ℕ → Merchant → Bool
has_merchant_id id m = m.id == id

abbrev pub has_wallet : Text → Merchant → Bool
has_wallet wallet m = text_eq m.wallet_address wallet

abbrev pub has_email : Text → Merchant → Bool
has_email email m = text_eq m.email email

unfoldable pub find_by_wallet : Text → Directory → Option Merchant
find_by_wallet wallet d = find? (has_wallet wallet) d.merchants

unfoldable pub find_by_id : ℕ → Directory → Result MerchantError Merchant
find_by_id id d = elim (find? (has_merchant_id id) d.merchants) [
  | none ↦ err not_found
  | some m ↦ ok m
]

abbrev pub new_merchant : Outside → Text → Text → Text → Merchant
new_merchant out wallet name email = record {
  id = out.fresh_id;
  wallet_address = wallet;
  business_name = name;
  email = email;
  role = merchant;
  webhook_url = none;
  webhook_secret = none;
  logo_url = none;
  cors_origins = some [];
}

-- The insertion fails if the address or the email is taken.
unfoldable pub register :
    Outside → Text → Text → Text → Directory → Result MerchantError Merchant × Directory
unfolding find_by_wallet log
register out wallet name email d = elim (find_by_wallet wallet d) [
  | some m ↦ (err conflict, d)
  | none ↦
      if any (has_wallet wallet) d.merchants || any (has_email email) d.merchants
      then (err database, d)
      else let m = new_merchant out wallet name email in
        (
          ok m,
          log out
              (sensitive_operation out.fresh_id (codes "merchant_registered") (codes "merchant")
                out.fresh_id)
              (record d { merchants = d.merchants ++ m ∷ [] }),
        )
]

-- The optional fields of `update`.
pub record MerchantUpdate : Type 0 where
  pub business_name : Option Text
  pub email : Option Text
  pub logo_url : Option Text

abbrev or_old : Option Text → Text → Text
or_old none old = old
or_old (some t) old = t

abbrev or_old_option : Option Text → Option Text → Option Text
or_old_option none old = old
or_old_option (some t) old = some t

abbrev pub apply_update : MerchantUpdate → Merchant → Merchant
apply_update u m = record m {
  business_name = or_old u.business_name m.business_name;
  email = or_old u.email m.email;
  logo_url = or_old_option u.logo_url m.logo_url;
}

-- UPDATE merchants SET … WHERE id = …
abbrev pub update_merchant : ℕ → (Merchant → Merchant) → Directory → Directory
update_merchant id f d = record d {
  merchants = map (λ m. if has_merchant_id id m then f m else m) d.merchants;
}

abbrev pub takes_email : ℕ → Option Text → List Merchant → Bool
takes_email id none ms = false
takes_email id (some email) ms = any (λ m. has_email email m && not (has_merchant_id id m)) ms

abbrev pub no_fields : MerchantUpdate → Bool
no_fields u = elim u.business_name [
  | some name ↦ false
  | none ↦ elim u.email [
    | some email ↦ false
    | none ↦ elim u.logo_url [ some url ↦ false | none ↦ true ]
  ]
]

-- The row, if there is one. An email of another merchant violates the unique column, and drizzle throws
-- on an update that sets no column.
unfoldable pub update :
    ℕ → MerchantUpdate → Directory → Result MerchantError (Option Merchant) × Directory
update id u d =
    if no_fields u || (takes_email id u.email d.merchants && any (has_merchant_id id) d.merchants)
    then (err database, d)
    else let d' = update_merchant id (apply_update u) d in
      (ok (find? (has_merchant_id id) d'.merchants), d')

unfoldable pub set_webhook :
    Outside → ℕ → Text → Directory → Result MerchantError (Option Text × Text) × Directory
unfolding log
set_webhook out merchant_id url d =
    let d1 =
      update_merchant merchant_id
        (λ m. record m { webhook_url = some url; webhook_secret = some out.random_hex }) d in
    let d2 =
      log out
        (sensitive_operation merchant_id (codes "webhook_updated") (codes "merchant") merchant_id)
        d1 in
    (
      elim (find? (has_merchant_id merchant_id) d1.merchants) [
        | none ↦ err missing_row
        | some m ↦ ok (m.webhook_url, out.random_hex)
      ],
      d2,
    )

abbrev pub or_empty : Option (List Text) → List Text
or_empty none = []
or_empty (some l) = l

unfoldable pub get_cors_origins : ℕ → Directory → Result MerchantError (List Text)
unfolding find_by_id
get_cors_origins merchant_id d = elim (find_by_id merchant_id d) [
  | ok m ↦ ok (or_empty m.cors_origins)
  | err e ↦ err e
]
