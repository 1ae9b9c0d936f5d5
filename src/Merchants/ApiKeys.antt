-- ===== src/Merchants/ApiKeys.antt =====
-- The API keys of src/merchants/merchants.service.ts: generating, listing, revoking and accepting them.
use orbit_stream_backend.Common.{
  ℕ, ◌==◌, Bool, true, false, List, [], ◌∷◌, ◌++◌, Option, none, some, if◌then◌else◌, map, filter,
  find?, take, Result, ok, err,
}
use orbit_stream_backend.Common.Text.{Text, codes, text_eq}
use orbit_stream_backend.Merchants.{
  Environment, testnet, mainnet, ApiKey, Directory, Outside, MerchantError, not_found, log,
  sensitive_operation,
}

abbrev key_start : Environment → Text
key_start testnet = codes "sk_test_"
key_start mainnet = codes "sk_live_"

abbrev pub raw_key : Outside → Environment → Text
raw_key out environment = key_start environment ++ out.random_hex

abbrev pub new_key : Outside → ℕ → Environment → ApiKey
new_key out merchant_id environment = record {
  id = out.fresh_id;
  merchant_id = merchant_id;
  key_prefix = take 12 (raw_key out environment) ++ codes "...";
  key_hash = out.sha256 (raw_key out environment);
  environment = environment;
  is_active = true;
}

-- The key and its prefix, as they are shown once.
unfoldable pub generate_api_key : Outside → ℕ → Environment → Directory → (Text × Text) × Directory
unfolding log
generate_api_key out merchant_id environment d =
    let key = new_key out merchant_id environment in
    (
      (raw_key out environment, key.key_prefix),
      log out
          (sensitive_operation merchant_id (codes "api_key_generated") (codes "api_key")
            out.fresh_id)
          (record d { api_keys = d.api_keys ++ key ∷ [] }),
    )

unfoldable pub list_api_keys : ℕ → Directory → List ApiKey
list_api_keys merchant_id d = filter (λ k. k.merchant_id == merchant_id) d.api_keys

abbrev pub has_key_id : ℕ → ApiKey → Bool
has_key_id id k = k.id == id

abbrev pub deactivate : ApiKey → ApiKey
deactivate k = record k { is_active = false }

-- UPDATE api_keys SET is_active = false WHERE id = …
abbrev pub deactivate_key : ℕ → Directory → Directory
deactivate_key id d = record d {
  api_keys = map (λ k. if has_key_id id k then deactivate k else k) d.api_keys;
}

-- What follows the update, for the row that it returned.
abbrev pub revoked :
    Outside → ℕ → ℕ → Option ApiKey → Directory → Result MerchantError (Unit {0}) × Directory
revoked out merchant_id key_id none d = (err not_found, d)
revoked out merchant_id key_id (some key) d =
    if key.merchant_id == merchant_id
    then (
      ok tt,
      log out (sensitive_operation merchant_id (codes "api_key_revoked") (codes "api_key") key_id)
          d,
    )
    else (err not_found, d)

unfoldable pub revoke_api_key :
    Outside → ℕ → ℕ → Directory → Result MerchantError (Unit {0}) × Directory
unfolding log
revoke_api_key out merchant_id key_id d =
    revoked out merchant_id key_id (find? (has_key_id key_id) d.api_keys) (deactivate_key key_id d)

abbrev pub has_hash : Text → ApiKey → Bool
has_hash hash k = text_eq k.key_hash hash

abbrev pub active_owner : Option ApiKey → Option ℕ
active_owner none = none
active_owner (some k) = if k.is_active then some k.merchant_id else none

unfoldable pub validate_api_key : (Text → Text) → Text → Directory → Option ℕ
validate_api_key sha256 key d = active_owner (find? (has_hash (sha256 key)) d.api_keys)
