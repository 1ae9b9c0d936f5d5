-- ===== src/Guards/Rotation.antt =====
-- Which secrets a JWT is accepted under, with JWT_SECRET_PREVIOUS during a rotation.
use orbit_stream_backend.Common.{
  ◌≡◌, refl, sym, ◌∙◌, inl, inr, true, false, Option, none, some, if◌then◌else◌, ltb, OnOk, on_ok,
  OnOk-map, ap, subst, length, Result, ok, err, arith, Bool-cases, Option-cases,
}
use orbit_stream_backend.Common.Text.{Text, is_empty}
use orbit_stream_backend.Merchants.{Directory}
use orbit_stream_backend.Config.{
  ConfigError, min_jwt_secret_length, dev_secret, JwtSecrets, JwtEnv, is_insecure, with_previous,
  resolve_current, resolve_jwt_secrets,
}
use orbit_stream_backend.Guards.{Refusal, unauthorized}
use orbit_stream_backend.Guards.JwtStrategy.{
  Jwt, User, secret_for, validate_user, check_token, jwt_authenticate,
}

-- A secret of at least 32 characters that is not one of the placeholders.
abbrev pub IsStrong : Text → Type 0
IsStrong secret = (is_insecure secret ≡ false) × (ltb (length secret) min_jwt_secret_length ≡ false)

-- What production accepts: the current secret is strong, and the previous one long.
abbrev pub AreAccepted : JwtEnv → JwtSecrets → Type 0
AreAccepted env secrets =
    (env.jwt_secret ≡ some secrets.current)
    × IsStrong secrets.current
    × ((previous : Text)
        → secrets.previous ≡ some previous
        → (env.jwt_secret_previous ≡ some previous)
          × (ltb (length previous) min_jwt_secret_length ≡ false))

-- The secrets have the current one, and a previous one only if it is the given text and long.
abbrev IsLong : Text → Option Text → JwtSecrets → Type 0
IsLong current po secrets =
    (secrets.current ≡ current)
    × ((previous : Text)
        → secrets.previous ≡ some previous
        → (po ≡ some previous) × (ltb (length previous) min_jwt_secret_length ≡ false))

no_previous :
    (current : Text) (po : Option Text)
    → IsLong current po (record { current = current; previous = none })
no_previous current po = (refl, λ previous e. absurd (ground (arith, e)))

with_previous-IsLong :
    (current : Text) (po : Option Text) → OnOk (IsLong current po) (with_previous true current po)
with_previous-IsLong current none = no_previous current none
with_previous-IsLong current (some p) = elim (Bool-cases (is_empty p)) [
  | inl b ↦ rw b (no_previous current (some p))
  | inr b ↦ rw b (elim (Bool-cases (ltb (length p) min_jwt_secret_length)) [
    | inl c ↦ rw c tt
    | inr c ↦ rw c (
      refl,
      λ previous e.
          (e, subst (λ t. ltb (length t) min_jwt_secret_length ≡ false) (ground (arith, e)) c),
    )
  ])
]

resolve_current-AreAccepted :
    (co po : Option Text)
    → OnOk
        (AreAccepted (record { is_production = true; jwt_secret = co; jwt_secret_previous = po }))
        (resolve_current true co po)
resolve_current-AreAccepted none po = tt
resolve_current-AreAccepted (some c) po = elim (Bool-cases (is_empty c)) [
  | inl b ↦ rw b tt
  | inr b ↦ elim (Bool-cases (is_insecure c)) [
    | inl i ↦ rw (b, i) tt
    | inr i ↦ elim (Bool-cases (ltb (length c) min_jwt_secret_length)) [
      | inl l ↦ rw (b, i, l) tt
      | inr l ↦
          rw (b, i, l)
            (OnOk-map (with_previous true c po)
              (λ secrets (same, long). (ap some (sym same), subst IsStrong (sym same) (i, l), long))
              (with_previous-IsLong c po))
    ]
  ]
]

-- The secret that the token verifies under, and where the environment has it.
abbrev pub IsSignedIn : Jwt → JwtEnv → Text → User → Text → Type 0
IsSignedIn jwt env token user secret =
    (jwt.verify token secret ≡ true)
    × (ltb (length secret) min_jwt_secret_length ≡ false)
    × (if user.via_previous_secret
        then env.jwt_secret_previous ≡ some secret
        else ((env.jwt_secret ≡ some secret) × (is_insecure secret ≡ false)))

-- The token is tried under one secret after the other.
abbrev pub try_previous : Jwt → Text → Directory → Option Text → Result Refusal User
try_previous jwt token d none = err unauthorized
try_previous jwt token d (some previous) =
    if jwt.verify token previous then ok (validate_user jwt true token d) else err unauthorized

abbrev pub try_secrets :
    Jwt → Text → Directory → Result ConfigError JwtSecrets → Result Refusal User
try_secrets jwt token d (err e) = err unauthorized
try_secrets jwt token d (ok secrets) =
    if jwt.verify token secrets.current
    then ok (validate_user jwt false token d)
    else try_previous jwt token d secrets.previous

check_token-tried :
    (jwt : Jwt) (token : Text) (d : Directory) (current : Text) (po : Option Text)
    → let r : Result ConfigError JwtSecrets = ok (record { current = current; previous = po }) in
      check_token jwt token d r ≡ try_secrets jwt token d r
unfolding secret_for check_token validate_user
check_token-tried jwt token d current none = elim (Bool-cases (jwt.verify token current)) [
  | inl b ↦ rw (b, b) refl
  | inr b ↦ rw (b, b) refl
]
check_token-tried jwt token d current (some p) = elim (Bool-cases (jwt.verify token current)) [
  | inl b ↦ rw (b, b) refl
  | inr b ↦
      rw b
        (elim (Bool-cases (jwt.verify token p)) [ inl c ↦ rw (c, c) refl | inr c ↦ rw (c, b) refl ])
]

check_token_lem :
    (jwt : Jwt) (token : Text) (d : Directory) (r : Result ConfigError JwtSecrets)
    → check_token jwt token d r ≡ try_secrets jwt token d r
unfolding check_token
check_token_lem jwt token d (err e) = refl
check_token_lem jwt token d (ok secrets) =
    check_token-tried jwt token d secrets.current secrets.previous

-- During a rotation a token is accepted exactly if it verifies under the current secret or else under the
-- previous one, and the user is marked with the secret that was used; an environment whose secrets are
-- not accepted lets no token through.
pub jwt_authenticate-rotates :
    (jwt : Jwt) (env : JwtEnv) (token : Text) (d : Directory)
    → jwt_authenticate jwt env (some token) d ≡ try_secrets jwt token d (resolve_jwt_secrets env)
unfolding jwt_authenticate
jwt_authenticate-rotates jwt env token d = check_token_lem jwt token d (resolve_jwt_secrets env)

-- A user that is authenticated, with the secret.
abbrev pub IsSigned : Jwt → JwtEnv → Text → User → Type 0
IsSigned jwt env token user = (secret : Text) × IsSignedIn jwt env token user secret

try_secrets-IsSigned :
    (jwt : Jwt) (env : JwtEnv) (token : Text) (d : Directory) (r : Result ConfigError JwtSecrets)
    → OnOk (AreAccepted env) r
    → OnOk (IsSigned jwt env token) (try_secrets jwt token d r)
unfolding validate_user
try_secrets-IsSigned jwt env token d (err e) h = tt
try_secrets-IsSigned jwt env token d (ok secrets) (same, (safe, long), old) =
    elim (Bool-cases (jwt.verify token secrets.current)) [
      | inl b ↦ rw b (secrets.current, (b, long, (same, safe)))
      | inr b ↦ rw b (elim (Option-cases secrets.previous) [
        | inl none_ ↦ rw none_ tt
        | inr (p, is_p) ↦ rw is_p (elim (Bool-cases (jwt.verify token p)) [
          | inl c ↦ rw c (let (held, old_long) = old p is_p in (p, (c, old_long, held)))
          | inr c ↦ rw c tt
        ])
      ])
    ]

-- In production a token that is accepted was signed with a secret of at least 32 characters: with
-- JWT_SECRET, which is none of the placeholders, or with JWT_SECRET_PREVIOUS.
pub jwt_authenticate-IsSigned :
    (jwt : Jwt) (env : JwtEnv) (token : Text) (d : Directory) (user : User)
    → env.is_production ≡ true
    → jwt_authenticate jwt env (some token) d ≡ ok user
    → IsSigned jwt env token user
unfolding resolve_jwt_secrets
jwt_authenticate-IsSigned jwt env token d user prod e =
    on_ok (IsSigned jwt env token) (try_secrets jwt token d (resolve_jwt_secrets env)) user
      (try_secrets-IsSigned jwt env token d (resolve_jwt_secrets env)
        (rw prod (resolve_current-AreAccepted env.jwt_secret env.jwt_secret_previous)))
      (sym (jwt_authenticate-rotates jwt env token d) ∙ e)

-- In production the published development secret is accepted as JWT_SECRET_PREVIOUS beside a strong
-- JWT_SECRET: every token that is signed with it then gives the user of its wallet.
pub jwt_authenticate-dev_secret :
    (jwt : Jwt) (env : JwtEnv) (token current : Text) (d : Directory)
    → env.jwt_secret ≡ some current
    → is_empty current ≡ false
    → IsStrong current
    → env.jwt_secret_previous ≡ some dev_secret
    → jwt.verify token current ≡ false
    → jwt.verify token dev_secret ≡ true
    → jwt_authenticate jwt env (some token) d ≡ ok (validate_user jwt true token d)
unfolding resolve_jwt_secrets
jwt_authenticate-dev_secret jwt env token current d e full (safe, long) old bad good =
    jwt_authenticate-rotates jwt env token d ∙ rw (e, old, full, safe, long, bad, good) refl
