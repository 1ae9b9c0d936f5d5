-- ===== src/PaymentLinks/Tests.antt =====
-- A link of a merchant, asked for with its key, and the theorem applied to it.
use orbit_stream_backend.Common.{ℕ, ◌≡◌, refl, [], ◌∷◌, ◌++◌, false, none, some, ok, err}
use orbit_stream_backend.Common.Text.{Text, codes}
use orbit_stream_backend.Merchants.{Directory, Outside, testnet, mainnet}
use orbit_stream_backend.Merchants.ApiKeys.{new_key, validate_api_key}
use orbit_stream_backend.Guards.{GuardRequest, not_found, api_key_guard}
use orbit_stream_backend.PaymentLinks.{
  LinkConfig, PaymentLink, new_link, to_dto, show_route, find_one,
}
use orbit_stream_backend.PaymentLinks.Shown.{HasKeyOf, IsLinkOf, show_route-HasKeyOf}

abbrev outside : Outside
outside = record { fresh_id = 1; random_hex = codes "a1"; sha256 = λ t. t; audit_fails = false }

abbrev keys : Directory
keys = record {
  merchants = [];
  api_keys = new_key outside 1 testnet ∷ new_key (record outside { fresh_id = 2 }) 2 mainnet ∷ [];
  audit_logs = [];
}

abbrev link : PaymentLink
link = new_link 40 1_000 1 (record {
  amount = codes "5";
  asset = codes "XLM";
  asset_issuer = none;
  description = none;
  display_currency = none;
  metadata = none;
  expires_in = none;
})

abbrev config : LinkConfig
config = record { frontend_url = codes "https://f.io"; uuid_text = λ n. n ∷ [] }

-- With the key of a merchant in the header.
abbrev with_key : Text → GuardRequest
with_key key = record {
  authorization = some (codes "Bearer " ++ key);
  merchant_id = none;
  resource_id = some 40;
  ip = none;
  user_agent = none;
}

shown_link :
    show_route config (λ t. t) (with_key (codes "sk_test_a1")) 40 keys (link ∷ [])
    ≡ ok (to_dto config link)
unfolding show_route api_key_guard validate_api_key find_one
shown_link = refl

not_shown :
    show_route config (λ t. t) (with_key (codes "sk_live_a1")) 40 keys (link ∷ []) ≡ err not_found
unfolding show_route api_key_guard validate_api_key find_one
not_shown = refl

show_route-HasKeyOf_example :
    (m : ℕ) × HasKeyOf (λ t. t) (with_key (codes "sk_test_a1")) keys m
    × IsLinkOf config 40 (link ∷ []) m (to_dto config link)
show_route-HasKeyOf_example =
    show_route-HasKeyOf config (λ t. t) (with_key (codes "sk_test_a1")) keys 40 (link ∷ [])
      (to_dto config link) shown_link
