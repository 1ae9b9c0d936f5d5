-- ===== src/Guards/Tests.antt =====
-- Two merchants with a key each, a rotation of secrets, and the theorems applied to them.
use orbit_stream_backend.Common.{◌≡◌, refl, true, false, [], ◌∷◌, none, some, ok, err, arith}
use orbit_stream_backend.Common.Text.{Text, codes, text_eq}
use orbit_stream_backend.Merchants.{
  Directory, Outside, testnet, mainnet, new_merchant, find_by_wallet,
}
use orbit_stream_backend.Merchants.ApiKeys.{new_key, revoke_api_key}
use orbit_stream_backend.Config.{dev_secret, JwtEnv, resolve_jwt_secrets}
use orbit_stream_backend.Guards.{forbidden, GuardRequest, ownership_guard, roles_guard}
use orbit_stream_backend.Guards.RevokeRoute.{revoke_route}
use orbit_stream_backend.Guards.JwtStrategy.{
  Jwt, User, check_token, secret_for, validate_user, jwt_authenticate,
}
use orbit_stream_backend.Origins.{CacheCall, Platform}
use orbit_stream_backend.Guards.MerchantRoutes.{MerchantRequest, MerchantReply, merchant_route}
use orbit_stream_backend.Guards.Kept.{AreKept}
use orbit_stream_backend.Guards.Isolated.{merchant_route-AreKept}
use orbit_stream_backend.Guards.Access.{Refused, revoke_route-Refused}
use orbit_stream_backend.Guards.Rotation.{
  IsSigned, jwt_authenticate-IsSigned, jwt_authenticate-dev_secret,
}

abbrev outside : Outside
outside = record { fresh_id = 1; random_hex = codes "a1"; sha256 = λ t. t; audit_fails = false }

abbrev shops : Directory
shops = record {
  merchants =
      new_merchant outside (codes "GA") (codes "A") (codes "a@a")
      ∷ new_merchant (record outside { fresh_id = 2 }) (codes "GB") (codes "B") (codes "b@b")
      ∷ [];
  api_keys = new_key outside 1 testnet ∷ new_key (record outside { fresh_id = 2 }) 2 mainnet ∷ [];
  audit_logs = [];
}

abbrev request : GuardRequest
request = record {
  authorization = none;
  merchant_id = some 1;
  resource_id = some 1;
  ip = none;
  user_agent = none;
}

abbrev user_1 : User
user_1 = record { wallet_address = codes "GA"; merchant_id = some 1; via_previous_secret = false }

foreign : (revoke_route outside user_1 request 2 [] shops).0 ≡ err forbidden
unfolding revoke_route ownership_guard roles_guard find_by_wallet revoke_api_key
foreign = refl

own : (revoke_route outside user_1 request 1 [] shops).0 ≡ ok tt
unfolding revoke_route ownership_guard roles_guard find_by_wallet revoke_api_key
own = refl

revoke_route-Refused_example : Refused (revoke_route outside user_1 request 2 [] shops) shops
revoke_route-Refused_example =
    revoke_route-Refused outside user_1 request 2 []
      (new_key (record outside { fresh_id = 2 }) 2 mainnet) shops refl (ground arith)

-- A token is the secret that it is signed with.
abbrev jwt : Jwt
jwt = record { verify = λ token secret. text_eq token secret; wallet = λ token. codes "GB" }

abbrev strong : Text
strong = codes "0123456789012345678901234567890123456789"

abbrev rotated : JwtEnv
rotated = record {
  is_production = true;
  jwt_secret = some strong;
  jwt_secret_previous = some dev_secret;
}

abbrev user_2 : User
user_2 = record { wallet_address = codes "GB"; merchant_id = some 2; via_previous_secret = false }

signed : jwt_authenticate jwt rotated (some strong) shops ≡ ok user_2
unfolding jwt_authenticate resolve_jwt_secrets check_token secret_for validate_user find_by_wallet
signed = refl

jwt_authenticate-IsSigned_example : IsSigned jwt rotated strong user_2
jwt_authenticate-IsSigned_example =
    jwt_authenticate-IsSigned jwt rotated strong shops user_2 refl signed

jwt_authenticate-dev_secret_example :
    jwt_authenticate jwt rotated (some dev_secret) shops
    ≡ ok (validate_user jwt true dev_secret shops)
jwt_authenticate-dev_secret_example =
    jwt_authenticate-dev_secret jwt rotated dev_secret strong shops refl refl (refl, refl) refl refl
      refl

abbrev call : CacheCall
call = record { now = 0; get_fails = false; set_fails = false; database_fails = false }

abbrev platform : Platform
platform = record { directory = shops; cache = record { of_merchant = λ id. none; of_all = none } }

-- Merchant 1 revokes its key, and merchant 2 is left alone.
own_key :
    (merchant_route outside call user_1 request [] (MerchantRequest.revoke_key 1) platform).0
    ≡ ok MerchantReply.key_revoked
unfolding merchant_route revoke_route ownership_guard roles_guard find_by_wallet revoke_api_key
own_key = refl

merchant_route-AreKept_example :
    AreKept
      (some 1)
      shops
      (merchant_route outside call user_1 request []
        (MerchantRequest.revoke_key 1)
        platform).1.directory
unfolding find_by_wallet
merchant_route-AreKept_example =
    merchant_route-AreKept outside call user_1 request [] (MerchantRequest.revoke_key 1) platform
      refl (refl, (refl, tt))
