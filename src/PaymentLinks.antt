-- ===== src/PaymentLinks.antt =====
-- src/payment-links: the links of a merchant, behind the guard for API keys. Printing a number and
-- serializing the metadata are done before.
pub mod Shown
mod Tests
use orbit_stream_backend.Common.{
  ℕ, zero, suc, ◌+◌, ◌-◌, ◌*◌, ◌==◌, leb, Bool, true, false, ◌&&◌, List, [], ◌∷◌, ◌++◌, Option,
  none, some, if◌then◌else◌, map, filter, find?, Result, ok, err,
}
use orbit_stream_backend.Common.Int.{ℤ, pos, negsuc}
use orbit_stream_backend.Common.Text.{Text, codes}
use orbit_stream_backend.Merchants.{Directory}
use orbit_stream_backend.Guards.{Refusal, not_found, GuardRequest, api_key_guard}

-- A row of payment_links; times are milliseconds.
pub record PaymentLink : Type 0 where
  pub id : ℕ
  pub merchant_id : ℕ
  pub amount : Text
  pub asset_code : Text
  pub asset_issuer : Option Text
  pub description : Option Text
  pub display_currency : Option Text
  pub metadata : Option Text
  pub active : Bool
  pub expires_at : Option ℤ
  pub created_at : ℕ

-- The body of a request, with a whole number of seconds.
pub record NewLink : Type 0 where
  pub amount : Text
  pub asset : Text
  pub asset_issuer : Option Text
  pub description : Option Text
  pub display_currency : Option Text
  pub metadata : Option Text
  pub expires_in : Option ℤ

pub record LinkDto : Type 0 where
  pub id : ℕ
  pub url : Text
  pub amount : Text
  pub asset : Text
  pub description : Option Text
  pub active : Bool
  pub expires_at : Option ℤ
  pub created_at : ℕ

-- The address of the frontend, and the printing of an id.
pub record LinkConfig : Type 0 where
  pub frontend_url : Text
  pub uuid_text : ℕ → Text

abbrev pub to_dto : LinkConfig → PaymentLink → LinkDto
to_dto config link = record {
  id = link.id;
  url = config.frontend_url ++ (codes "/pay/" ++ config.uuid_text link.id);
  amount = link.amount;
  asset = link.asset_code;
  description = link.description;
  active = link.active;
  expires_at = link.expires_at;
  created_at = link.created_at;
}

-- `Date.now() + seconds * 1000`
abbrev pub seconds_after : ℕ → ℤ → ℤ
seconds_after now (pos n) = pos (now + n * 1000)
seconds_after now (negsuc n) =
    let ago = suc n * 1000 in if leb ago now then pos (now - ago) else negsuc (ago - now - 1)

-- No number, and the number 0, are no expiry.
abbrev pub expiry : ℕ → Option ℤ → Option ℤ
expiry now none = none
expiry now (some (pos zero)) = none
expiry now (some n) = some (seconds_after now n)

abbrev pub new_link : ℕ → ℕ → ℕ → NewLink → PaymentLink
new_link id now merchant_id dto = record {
  id = id;
  merchant_id = merchant_id;
  amount = dto.amount;
  asset_code = dto.asset;
  asset_issuer = dto.asset_issuer;
  description = dto.description;
  display_currency = dto.display_currency;
  metadata = dto.metadata;
  active = true;
  expires_at = expiry now dto.expires_in;
  created_at = now;
}

-- The table is kept newest first; the id is fresh.
unfoldable pub create :
    LinkConfig → ℕ → ℕ → ℕ → NewLink → List PaymentLink → LinkDto × List PaymentLink
create config id now merchant_id dto links =
    let link = new_link id now merchant_id dto in (to_dto config link, link ∷ links)

abbrev pub is_link : ℕ → ℕ → PaymentLink → Bool
is_link merchant_id id link = link.id == id && link.merchant_id == merchant_id

abbrev pub shown : LinkConfig → Option PaymentLink → Result Refusal LinkDto
shown config none = err not_found
shown config (some link) = ok (to_dto config link)

unfoldable pub find_one : LinkConfig → ℕ → ℕ → List PaymentLink → Result Refusal LinkDto
find_one config merchant_id id links = shown config (find? (is_link merchant_id id) links)

unfoldable pub find_all : LinkConfig → ℕ → List PaymentLink → List LinkDto
find_all config merchant_id links =
    map (to_dto config) (filter (λ l. l.merchant_id == merchant_id) links)

-- The handler after the guard, which has set the merchant.
abbrev pub show_for :
    LinkConfig → ℕ → List PaymentLink → Result Refusal GuardRequest → Result Refusal LinkDto
show_for config id links (err e) = err e
show_for config id links (ok req) = elim req.merchant_id [
  | none ↦ err not_found
  | some merchant_id ↦ find_one config merchant_id id links
]

-- GET v1/payment-links/:id
unfoldable pub show_route :
    LinkConfig
    → (Text → Text)
    → GuardRequest
    → ℕ
    → Directory
    → List PaymentLink
    → Result Refusal LinkDto
unfolding api_key_guard
show_route config sha256 req id d links = show_for config id links (api_key_guard sha256 req d)
