-- ===== src/Merchants/Keys.antt =====
-- Which keys are accepted after a key is generated or revoked.
use orbit_stream_backend.Common.{
  ℕ, ◌==◌, ◌≡◌, ◌↔◌, refl, subst, ap, ok, ◌∙◌, inl, inr, Bool, true, false, List, [], ◌∷◌, ◌++◌,
  Option, none, some, if◌then◌else◌, map, find?, any, or_else, find?-append, find?-any-false, arith,
  Bool-cases,
}
use orbit_stream_backend.Common.Text.{Text, text_eq, text_eq_iff}
use orbit_stream_backend.Merchants.{ApiKey, AuditLogEntry, Environment, Directory, Outside, log}
use orbit_stream_backend.Merchants.ApiKeys.{
  has_hash, has_key_id, deactivate, deactivate_key, active_owner, raw_key, new_key,
  generate_api_key, revoked, revoke_api_key, validate_api_key,
}

-- The row found, after the update.
abbrev deactivated : ℕ → Option ApiKey → Option ApiKey
deactivated key_id none = none
deactivated key_id (some k) = some (if has_key_id key_id k then deactivate k else k)

log_api_keys :
    (out : Outside) (e : AuditLogEntry) (d : Directory) → (log out e d).api_keys ≡ d.api_keys
unfolding log
log_api_keys out e d = elim (Bool-cases out.audit_fails) [ inl b ↦ rw b refl | inr b ↦ rw b refl ]

last_found :
    (o : Option ApiKey) (b : Bool) (k : ApiKey)
    → k.is_active ≡ true
    → (b ≡ true → o ≡ none)
    → active_owner (or_else o (if b then some k else none))
      ≡ (if b then some k.merchant_id else active_owner o)
last_found none true k active new = rw active refl
last_found none false k active new = refl
last_found (some l) true k active new = absurd (ground (arith, new refl))
last_found (some l) false k active new = refl

appended :
    (sha256 : Text → Text) (key' : Text) (keys : List ApiKey) (k : ApiKey)
    → k.is_active ≡ true
    → any (has_hash k.key_hash) keys ≡ false
    → active_owner (find? (has_hash (sha256 key')) (keys ++ k ∷ [])) ≡ (
        if text_eq k.key_hash (sha256 key')
        then some k.merchant_id
        else active_owner (find? (has_hash (sha256 key')) keys))
appended sha256 key' keys k active fresh =
    rw (find?-append (has_hash (sha256 key')) keys (k ∷ [])) (
      last_found (find? (has_hash (sha256 key')) keys) (text_eq k.key_hash (sha256 key')) k active
        (λ same.
          subst (λ h. find? (has_hash h) keys ≡ none)
            ((text_eq_iff k.key_hash (sha256 key')).0 same)
            (find?-any-false (has_hash k.key_hash) keys fresh)))

-- A key that is generated is accepted for its merchant, and whether any other text is accepted stays as
-- it was, if no stored key has its hash.
pub validate_api_key-generate :
    (out : Outside) (merchant_id : ℕ) (environment : Environment) (d : Directory) (key' : Text)
    → any (has_hash (out.sha256 (raw_key out environment))) d.api_keys ≡ false
    → validate_api_key out.sha256 key' (generate_api_key out merchant_id environment d).1 ≡ (
        if text_eq (out.sha256 (raw_key out environment)) (out.sha256 key')
        then some merchant_id
        else validate_api_key out.sha256 key' d)
unfolding validate_api_key generate_api_key
validate_api_key-generate out merchant_id environment d key' fresh =
    rw (log_api_keys out)
      (appended out.sha256 key' d.api_keys (new_key out merchant_id environment) refl fresh)

find?-deactivate :
    (key_id : ℕ) (hash : Text) (keys : List ApiKey)
    → find? (has_hash hash) (map (λ k. if has_key_id key_id k then deactivate k else k) keys)
      ≡ deactivated key_id (find? (has_hash hash) keys)
find?-deactivate key_id hash [] = refl
find?-deactivate key_id hash (k ∷ keys) = elim (Bool-cases (has_key_id key_id k)) [
  | inl b ↦ rw b (elim (Bool-cases (text_eq k.key_hash hash)) [
    | inl c ↦ rw (c, b) refl
    | inr c ↦ rw c (find?-deactivate key_id hash keys)
  ])
  | inr b ↦ rw b (elim (Bool-cases (text_eq k.key_hash hash)) [
    | inl c ↦ rw (c, b) refl
    | inr c ↦ rw c (find?-deactivate key_id hash keys)
  ])
]

-- The row that is found has the id.
abbrev pub names : ℕ → Option ApiKey → Bool
names key_id none = false
names key_id (some k) = has_key_id key_id k

owner-deactivated :
    (key_id : ℕ) (o : Option ApiKey)
    → active_owner (deactivated key_id o) ≡ (if names key_id o then none else active_owner o)
owner-deactivated key_id none = refl
owner-deactivated key_id (some k) = elim (Bool-cases (has_key_id key_id k)) [
  | inl b ↦ rw b refl
  | inr b ↦ rw b refl
]

revoked_api_keys :
    (out : Outside) (merchant_id key_id : ℕ) (o : Option ApiKey) (d : Directory)
    → (revoked out merchant_id key_id o d).1.api_keys ≡ d.api_keys
revoked_api_keys out merchant_id key_id none d = refl
revoked_api_keys out merchant_id key_id (some k) d =
    elim (Bool-cases (k.merchant_id == merchant_id)) [
      | inl b ↦ rw b (log_api_keys out _ d)
      | inr b ↦ rw b refl
    ]

-- The row has the merchant.
abbrev pub IsOwner : ℕ → Option ApiKey → Type 0
IsOwner merchant_id none = ⊥
IsOwner merchant_id (some k) = k.merchant_id ≡ merchant_id

revoked_iff :
    (out : Outside) (merchant_id key_id : ℕ) (o : Option ApiKey) (d : Directory)
    → ((revoked out merchant_id key_id o d).0 ≡ ok tt) ↔ IsOwner merchant_id o
revoked_iff out merchant_id key_id none d = ground arith
revoked_iff out merchant_id key_id (some k) d = ground arith

-- Revoking succeeds exactly for the merchant of the key. Whoever calls it, and also when it fails, the
-- texts whose stored row has the id are accepted no longer, and all others as before.
pub revoke_api_key-deactivates :
    (out : Outside) (merchant_id key_id : ℕ) (d : Directory)
    → (((revoke_api_key out merchant_id key_id d).0 ≡ ok tt)
        ↔ IsOwner merchant_id (find? (has_key_id key_id) d.api_keys))
      × ((key' : Text)
          → validate_api_key out.sha256 key' (revoke_api_key out merchant_id key_id d).1 ≡ (
              if names key_id (find? (has_hash (out.sha256 key')) d.api_keys)
              then none
              else validate_api_key out.sha256 key' d))
unfolding validate_api_key revoke_api_key
revoke_api_key-deactivates out merchant_id key_id d = (
  revoked_iff out merchant_id key_id (find? (has_key_id key_id) d.api_keys)
      (deactivate_key key_id d),
  λ key'.
      ap (λ keys. active_owner (find? (has_hash (out.sha256 key')) keys))
        (revoked_api_keys out merchant_id key_id (find? (has_key_id key_id) d.api_keys)
          (deactivate_key key_id d))
      ∙ ap active_owner (find?-deactivate key_id (out.sha256 key') d.api_keys)
      ∙ owner-deactivated key_id (find? (has_hash (out.sha256 key')) d.api_keys),
)
