-- ===== src/Config.antt =====
-- src/config/jwt-secret.config.ts, and `validate` of src/config/config.schema.ts behind the schema, whose
-- parsing is code of zod and a parameter.
use orbit_stream_backend.Common.{
  ℕ, Bool, true, false, not, ◌&&◌, List, [], ◌∷◌, Option, none, some, if◌then◌else◌, ltb, length,
  any, filter, Result, ok, err,
}
use orbit_stream_backend.Common.Text.{Text, codes, text_eq, is_empty}

abbrev pub min_jwt_secret_length : ℕ
min_jwt_secret_length = 32

abbrev pub dev_secret : Text
dev_secret = codes "dev-secret-for-local-development-only!"

abbrev pub insecure_jwt_secrets : List Text
insecure_jwt_secrets = codes "dev-secret" ∷ dev_secret ∷ codes "change-me-in-production" ∷ []

pub record JwtSecrets : Type 0 where
  pub current : Text
  pub previous : Option Text

-- NODE_ENV === 'production', JWT_SECRET and JWT_SECRET_PREVIOUS
pub record JwtEnv : Type 0 where
  pub is_production : Bool
  pub jwt_secret : Option Text
  pub jwt_secret_previous : Option Text

pub data ConfigError : Type 0 where
  not_set placeholder too_short previous_too_short : ConfigError

abbrev pub is_insecure : Text → Bool
is_insecure s = any (text_eq s) insecure_jwt_secrets

-- The previous secret, once the current one is accepted.
abbrev pub with_previous : Bool → Text → Option Text → Result ConfigError JwtSecrets
with_previous prod current none = ok (record { current = current; previous = none })
with_previous prod current (some previous) =
    if is_empty previous
    then ok (record { current = current; previous = none })
    else if ltb (length previous) min_jwt_secret_length && prod
    then err previous_too_short
    else ok (record { current = current; previous = some previous })

abbrev pub secret_missing : Bool → Result ConfigError JwtSecrets
secret_missing true = err not_set
secret_missing false = ok (record { current = dev_secret; previous = none })

abbrev pub resolve_current : Bool → Option Text → Option Text → Result ConfigError JwtSecrets
resolve_current prod none previous = secret_missing prod
resolve_current prod (some current) previous =
    if is_empty current
    then secret_missing prod
    else if is_insecure current
    then (if prod then err placeholder else ok (record { current = current; previous = none }))
    else if ltb (length current) min_jwt_secret_length
    then err too_short
    else with_previous prod current previous

unfoldable pub resolve_jwt_secrets : JwtEnv → Result ConfigError JwtSecrets
resolve_jwt_secrets env = resolve_current env.is_production env.jwt_secret env.jwt_secret_previous

-- `env.JWT_EXPIRES_IN ?? '7d'`
unfoldable pub jwt_expires_in : Option Text → Text
jwt_expires_in none = codes "7d"
jwt_expires_in (some t) = t

abbrev pub defaulted_keys : List Text
defaulted_keys =
    codes "NODE_ENV"
    ∷ codes "PORT"
    ∷ codes "JWT_EXPIRES_IN"
    ∷ codes "FRONTEND_URL"
    ∷ codes "CHECKOUT_SESSION_TTL_MINUTES"
    ∷ codes "CHALLENGE_TTL_SECONDS"
    ∷ codes "REDIS_CURSOR_TTL_HOURS"
    ∷ codes "WEBHOOK_POLL_MS"
    ∷ codes "WEBHOOK_MAX_CONCURRENCY"
    ∷ codes "PLATFORM_DOMAIN"
    ∷ codes "CORS_ALLOWED_ORIGINS"
    ∷ []

-- The environment as a list of names and values.
abbrev pub Env : Type 0
Env = List (Text × Text)

abbrev pub is_set : Env → Text → Bool
is_set env k = any (λ p. text_eq p.0 k) env

abbrev pub missing_keys : Env → List Text
missing_keys env = filter (λ k. not (is_set env k)) defaulted_keys

abbrev pub is_production_env : Env → Bool
is_production_env env =
    any (λ p. text_eq p.0 (codes "NODE_ENV") && text_eq p.1 (codes "production")) env

abbrev no_keys : List Text → Bool
no_keys [] = true
no_keys (k ∷ ks) = false

-- `configSchema.safeParse` is the first argument; the warning outside production is left out.
unfoldable pub validate {ℓ} : {Config : Type ℓ} → (Env → Option Config) → Env → Option Config
validate parse env = elim (parse env) [
  | none ↦ none
  | some config ↦
      if is_production_env env && not (no_keys (missing_keys env)) then none else some config
]
