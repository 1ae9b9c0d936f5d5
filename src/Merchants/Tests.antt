-- ===== src/Merchants/Tests.antt =====
-- A merchant with two keys, and the theorems applied to them.
use orbit_stream_backend.Common.{
  ◌≡◌, ◌↔◌, refl, [], ◌∷◌, none, some, false, find?, ok, err, if◌then◌else◌,
}
use orbit_stream_backend.Common.Text.{Text, codes, text_eq}
use orbit_stream_backend.Merchants.{ApiKey, Directory, Outside, testnet, mainnet, not_found, log}
use orbit_stream_backend.Merchants.ApiKeys.{
  has_hash, has_key_id, raw_key, new_key, generate_api_key, revoke_api_key, validate_api_key,
}
use orbit_stream_backend.Merchants.Keys.{
  IsOwner, names, validate_api_key-generate, revoke_api_key-deactivates,
}

-- A hash that keeps the text.
abbrev outside : Outside
outside = record { fresh_id = 3; random_hex = codes "c3"; sha256 = λ t. t; audit_fails = false }

abbrev key_of_1 : ApiKey
key_of_1 = new_key (record outside { fresh_id = 1; random_hex = codes "a1" }) 1 testnet

abbrev key_of_2 : ApiKey
key_of_2 = new_key (record outside { fresh_id = 2; random_hex = codes "b2" }) 2 mainnet

abbrev two_keys : Directory
two_keys = record { merchants = []; api_keys = key_of_1 ∷ key_of_2 ∷ []; audit_logs = [] }

generated :
    validate_api_key (λ t. t) (codes "sk_test_c3") (generate_api_key outside 1 testnet two_keys).1
    ≡ some 1
unfolding validate_api_key generate_api_key log
generated = refl

validate_api_key-generate_example :
    validate_api_key (λ t. t) (codes "sk_test_c3") (generate_api_key outside 1 testnet two_keys).1
    ≡ (if text_eq (raw_key outside testnet) (codes "sk_test_c3")
        then some 1
        else validate_api_key (λ t. t) (codes "sk_test_c3") two_keys)
validate_api_key-generate_example =
    validate_api_key-generate outside 1 testnet two_keys (codes "sk_test_c3") refl

-- Merchant 1 revokes the key of merchant 2.
foreign :
    ((revoke_api_key outside 1 2 two_keys).0 ≡ err not_found)
    × (validate_api_key (λ t. t) (codes "sk_live_b2") two_keys ≡ some 2)
    × (validate_api_key (λ t. t) (codes "sk_live_b2") (revoke_api_key outside 1 2 two_keys).1
        ≡ none)
unfolding validate_api_key revoke_api_key
foreign = (refl, refl, refl)

revoke_api_key-deactivates_example :
    (((revoke_api_key outside 1 2 two_keys).0 ≡ ok tt)
      ↔ IsOwner 1 (find? (has_key_id 2) two_keys.api_keys))
    × ((key' : Text)
        → validate_api_key (λ t. t) key' (revoke_api_key outside 1 2 two_keys).1 ≡ (
            if names 2 (find? (has_hash key') two_keys.api_keys)
            then none
            else validate_api_key (λ t. t) key' two_keys))
revoke_api_key-deactivates_example = revoke_api_key-deactivates outside 1 2 two_keys
