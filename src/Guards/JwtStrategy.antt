-- ===== src/Guards/JwtStrategy.antt =====
-- src/auth/jwt.strategy.ts: a token is verified under the current secret or the previous one.
use orbit_stream_backend.Common.{
  ℕ, Bool, true, false, Option, none, some, if◌then◌else◌, Result, ok, err,
}
use orbit_stream_backend.Common.Text.{Text}
use orbit_stream_backend.Merchants.{Directory, find_by_wallet}
use orbit_stream_backend.Config.{ConfigError, JwtEnv, JwtSecrets, resolve_jwt_secrets}
use orbit_stream_backend.Guards.{Refusal, unauthorized, field_of}

-- jsonwebtoken: whether a token verifies under a secret, and the wallet in its payload.
pub record Jwt : Type 0 where
  pub verify : Text → Text → Bool
  pub wallet : Text → Text

pub record User : Type 0 where
  pub wallet_address : Text
  pub merchant_id : Option ℕ
  pub via_previous_secret : Bool

abbrev pub previous_verifies : Jwt → Text → Option Text → Option Text
previous_verifies jwt token none = none
previous_verifies jwt token (some previous) =
    if jwt.verify token previous then some previous else none

abbrev pub previous_or : Text → Option Text → Text × Bool
previous_or current none = (current, false)
previous_or current (some previous) = (previous, true)

-- `secretOrKeyProvider`: the secret, and whether it is the previous one.
unfoldable pub secret_for : Jwt → JwtSecrets → Text → Text × Bool
secret_for jwt secrets token =
    if jwt.verify token secrets.current
    then (secrets.current, false)
    else previous_or secrets.current (previous_verifies jwt token secrets.previous)

-- `validate`
unfoldable pub validate_user : Jwt → Bool → Text → Directory → User
unfolding find_by_wallet
validate_user jwt via_previous token d = record {
  wallet_address = jwt.wallet token;
  merchant_id = field_of (λ m. m.id) (find_by_wallet (jwt.wallet token) d);
  via_previous_secret = via_previous;
}

-- passport-jwt verifies the token under the secret that it is given; without one, the user is not
-- authenticated.
unfoldable pub check_token :
    Jwt → Text → Directory → Result ConfigError JwtSecrets → Result Refusal User
unfolding secret_for validate_user
check_token jwt token d (err e) = err unauthorized
check_token jwt token d (ok secrets) =
    let (secret, via_previous) = secret_for jwt secrets token in
    if jwt.verify token secret
    then ok (validate_user jwt via_previous token d)
    else err unauthorized

unfoldable pub jwt_authenticate : Jwt → JwtEnv → Option Text → Directory → Result Refusal User
unfolding resolve_jwt_secrets check_token
jwt_authenticate jwt env none d = err unauthorized
jwt_authenticate jwt env (some token) d = check_token jwt token d (resolve_jwt_secrets env)
