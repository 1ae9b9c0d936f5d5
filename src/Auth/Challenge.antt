-- ===== src/Auth/Challenge.antt =====
-- src/auth/auth.service.ts: issuing a challenge, and exchanging a token for one of the current secret. The
-- building of transactions and the signing are the Stellar SDK's.
use orbit_stream_backend.Common.{
  ℕ, ◌+◌, ◌-◌, ◌*◌, ◌/◌, leb, Bool, ◌&&◌, List, [], ◌∷◌, ◌++◌, Option, none, some, if◌then◌else◌,
  map,
}
use orbit_stream_backend.Common.Text.{Text, codes, text_eq, is_empty}
use orbit_stream_backend.Auth.{Signature, Operation, Transaction, AuthState, set_at}

-- What the SDK does with a secret key and with a transaction: the public key, a signature of a hash, the
-- hash for a passphrase, and the envelope in base64.
pub record Signing : Type 0 where
  pub public_key : Text → Text
  pub sign : Text → Text → Signature
  pub hash : Text → Text → List Operation → ℕ × ℕ → Text
  pub to_xdr : Transaction → Text

-- The configuration that is read; the passphrases are constants of the SDK.
pub record AuthConfig : Type 0 where
  pub stellar_network : Option Text
  pub mainnet_secret : Option Text
  pub testnet_secret : Option Text
  pub platform_secret : Option Text
  pub public_passphrase : Text
  pub testnet_passphrase : Text
  pub challenge_ttl_seconds : ℕ

pub record NetworkConfig : Type 0 where
  pub passphrase : Text
  pub secret : Option Text

-- The names of the networks are ASCII.
abbrev upper : Text → Text
upper = map (λ c. if leb 97 c && leb c 122 then c - 32 else c)

-- `a || b` of two texts
abbrev pub or_text : Option Text → Option Text → Option Text
or_text none b = b
or_text (some a) b = if is_empty a then b else some a

abbrev pub network_name : Option Text → Text
network_name none = codes "TESTNET"
network_name (some n) = upper n

-- `getNetworkConfig` without the URL of Horizon.
unfoldable pub get_network_config : AuthConfig → NetworkConfig
get_network_config c =
    if text_eq (network_name c.stellar_network) (codes "MAINNET")
    then record {
      passphrase = c.public_passphrase;
      secret = or_text c.mainnet_secret c.platform_secret;
    }
    else record {
      passphrase = c.testnet_passphrase;
      secret = or_text c.testnet_secret c.platform_secret;
    }

pub record Challenge : Type 0 where
  pub transaction : Text
  pub passphrase : Text
  pub expires_at : ℕ

abbrev pub challenge_operation : Text → Text → Text → Operation
challenge_operation server_key wallet nonce = record {
  source = some wallet;
  name = some (server_key ++ codes " auth");
  value = some nonce;
}

abbrev pub challenge_bounds : ℕ → ℕ → ℕ × ℕ
challenge_bounds ttl now_seconds = (now_seconds - ttl, now_seconds + ttl)

-- The transaction, signed by the server.
abbrev pub challenge_transaction : Signing → ℕ → Text → Text → Text → Text → ℕ → Transaction
challenge_transaction sdk ttl passphrase secret wallet nonce now_seconds =
    let server_key = sdk.public_key secret in
    let ops = challenge_operation server_key wallet nonce ∷ [] in
    let bounds = challenge_bounds ttl now_seconds in
    let hash = sdk.hash passphrase server_key ops bounds in
    record {
      source = server_key;
      operations = ops;
      time_bounds = some bounds;
      hash = hash;
      signatures = sdk.sign secret hash ∷ [];
    }

-- `if (!config.secret)`
abbrev pub given_secret : Option Text → Option Text
given_secret secret = or_text secret none

abbrev pub challenge_with :
    Signing → ℕ → Text → Text → Text → ℕ → Option Text → AuthState → Option Challenge × AuthState
challenge_with sdk ttl passphrase wallet nonce now_seconds none s = (none, s)
challenge_with sdk ttl passphrase wallet nonce now_seconds (some secret) s = (
  some (record {
    transaction =
        sdk.to_xdr (challenge_transaction sdk ttl passphrase secret wallet nonce now_seconds);
    passphrase = passphrase;
    expires_at = (now_seconds + ttl) * 1000;
  }),
  record s { nonces = set_at s.nonces wallet (some nonce) },
)

-- `requestChallenge` at the time `now`, with the nonce in hex; `none` is the BadRequestException of a
-- server without a secret.
unfoldable pub request_challenge :
    Signing → AuthConfig → Text → Text → ℕ → AuthState → Option Challenge × AuthState
unfolding get_network_config
request_challenge sdk config wallet nonce now s =
    let net = get_network_config config in
    challenge_with sdk config.challenge_ttl_seconds net.passphrase wallet nonce (now / 1000)
      (given_secret net.secret) s

pub record Refreshed : Type 0 where
  pub access_token : Text
  pub wallet : Text
  pub rotated : Bool

-- `refresh`; the first argument signs the payload for a wallet with the current secret.
unfoldable pub refresh : (Text → Text) → Text → Bool → Refreshed
refresh sign wallet via_previous_secret = record {
  access_token = sign wallet;
  wallet = wallet;
  rotated = via_previous_secret;
}
