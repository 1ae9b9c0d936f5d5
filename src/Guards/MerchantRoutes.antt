-- ===== src/Guards/MerchantRoutes.antt =====
-- src/merchants/merchants.controller.ts behind its guards: the routes of a merchant's own data. POST
-- merchants/register, which has no merchant yet, is `register` of the service.
use orbit_stream_backend.Common.{ℕ, List, [], ◌∷◌, Option, none, some, Result, ok, err}
use orbit_stream_backend.Common.Text.{Text}
use orbit_stream_backend.Store.{Session}
use orbit_stream_backend.Merchants.{
  Environment, Role, Merchant, admin, merchant, ApiKey, Directory, Outside, MerchantUpdate,
  MerchantError, find_by_wallet, update, set_webhook, get_cors_origins,
}
use orbit_stream_backend.Merchants.ApiKeys.{generate_api_key, list_api_keys}
use orbit_stream_backend.Origins.{CacheCall, Platform, set_cors_origins}
use orbit_stream_backend.Guards.{Refusal, server_error, GuardRequest, roles_guard}
use orbit_stream_backend.Guards.JwtStrategy.{User}
use orbit_stream_backend.Guards.RevokeRoute.{revoke_route}

pub data MerchantRequest : Type 0 where
  get_profile list_keys get_origins : MerchantRequest
  update_profile : MerchantUpdate → MerchantRequest
  generate_key : Environment → MerchantRequest
  revoke_key : ℕ → MerchantRequest
  put_webhook : Text → MerchantRequest
  put_origins : List Text → MerchantRequest

pub data MerchantReply : Type 0 where
  profile : Option Merchant → MerchantReply
  keys : List ApiKey → MerchantReply
  origins : List Text → MerchantReply
  new_key : Text → Text → MerchantReply
  key_revoked : MerchantReply
  webhook : Option Text → Text → MerchantReply

-- `@Roles('admin', 'merchant')` stands on what changes something.
abbrev pub roles_of : MerchantRequest → List Role
roles_of get_profile = []
roles_of list_keys = []
roles_of get_origins = []
roles_of _ = admin ∷ merchant ∷ []

abbrev pub refused_as : MerchantError → Refusal
refused_as MerchantError.not_found = Refusal.not_found
refused_as _ = server_error

abbrev pub replied :
    {A : Type 0} → (A → MerchantReply) → Result MerchantError A → Result Refusal MerchantReply
replied f (ok a) = ok (f a)
replied f (err e) = err (refused_as e)

abbrev pub in_directory :
    Platform → Result Refusal MerchantReply × Directory → Result Refusal MerchantReply × Platform
in_directory p (r, d) = (r, record p { directory = d })

abbrev pub as_reply :
    Result Refusal (Unit {0}) × Directory → Result Refusal MerchantReply × Directory
as_reply (ok u, d) = (ok key_revoked, d)
as_reply (err e, d) = (err e, d)

-- The handlers, once the merchant of the token's wallet is found.
unfoldable pub handle_own :
    Outside
    → CacheCall
    → MerchantRequest
    → Merchant
    → Platform
    → Result Refusal MerchantReply × Platform
unfolding update generate_api_key list_api_keys set_webhook get_cors_origins set_cors_origins
handle_own out c get_profile m p = (ok (profile (some m)), p)
handle_own out c list_keys m p = (ok (keys (list_api_keys m.id p.directory)), p)
handle_own out c get_origins m p = (replied origins (get_cors_origins m.id p.directory), p)
handle_own out c (update_profile u) m p =
    let (r, d) = update m.id u p.directory in in_directory p (replied profile r, d)
handle_own out c (generate_key environment) m p =
    let ((key, prefix), d) = generate_api_key out m.id environment p.directory in
    in_directory p (ok (new_key key prefix), d)
handle_own out c (revoke_key id) m p = (err server_error, p)
handle_own out c (put_webhook url) m p =
    let (r, d) = set_webhook out m.id url p.directory in
    in_directory p (replied (λ w. webhook w.0 w.1) r, d)
handle_own out c (put_origins os) m p =
    let (r, p') = set_cors_origins c m.id os p in (replied origins r, p')

-- Only the profile of a wallet without a merchant is no error.
abbrev pub handle_found :
    Outside
    → CacheCall
    → MerchantRequest
    → Option Merchant
    → Platform
    → Result Refusal MerchantReply × Platform
handle_found out c get_profile none p = (ok (profile none), p)
handle_found out c request none p = (err server_error, p)
handle_found out c request (some m) p = handle_own out c request m p

abbrev pub after_roles :
    Outside
    → CacheCall
    → User
    → MerchantRequest
    → Result Refusal (Unit {0}) × Directory
    → Platform
    → Result Refusal MerchantReply × Platform
after_roles out c user request (err e, d) p = (err e, record p { directory = d })
after_roles out c user request (ok u, d) p =
    handle_found out c request (find_by_wallet user.wallet_address d) (record p { directory = d })

-- A request of an authenticated user. Revoking has a guard more.
unfoldable pub merchant_route :
    Outside
    → CacheCall
    → User
    → GuardRequest
    → List Session
    → MerchantRequest
    → Platform
    → Result Refusal MerchantReply × Platform
unfolding roles_guard find_by_wallet handle_own revoke_route
merchant_route out c user req sessions (revoke_key id) p =
    in_directory p (as_reply (revoke_route out user req id sessions p.directory))
merchant_route out c user req sessions request p =
    after_roles out c user request
      (roles_guard out (roles_of request) (record req { merchant_id = user.merchant_id })
        p.directory)
      p
