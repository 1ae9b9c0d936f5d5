-- ===== src/PaymentLinks/Shown.antt =====
-- To whom a payment link is shown.
use orbit_stream_backend.Common.{
  ℕ, ==_iff, ◌≡◌, refl, sym, ap, ◌∙◌, inl, inr, Bool, true, List, [], ◌∷◌, Option, none, some,
  find?, Result, ok, err, OnOk, arith, Bool-cases, Option-cases,
}
use orbit_stream_backend.Common.Text.{Text}
use orbit_stream_backend.Merchants.{ApiKey, Directory}
use orbit_stream_backend.Merchants.ApiKeys.{has_hash, active_owner, validate_api_key}
use orbit_stream_backend.Guards.{Refusal, GuardRequest, bearer_token, check_key, api_key_guard}
use orbit_stream_backend.PaymentLinks.{
  PaymentLink, LinkDto, LinkConfig, to_dto, is_link, find_one, show_for, show_route,
}

-- The request has an API key of the merchant, which is active.
abbrev pub HasKeyOf : (Text → Text) → GuardRequest → Directory → ℕ → Type 0
HasKeyOf sha256 req d m =
    (token : Text) × (bearer_token req.authorization ≡ some token)
    × ((k : ApiKey) × (find? (has_hash (sha256 token)) d.api_keys ≡ some k)
        × (k.is_active ≡ true)
        × (k.merchant_id ≡ m))

-- The link is one of the merchant, and is what is shown.
abbrev pub IsLinkOf : LinkConfig → ℕ → List PaymentLink → ℕ → LinkDto → Type 0
IsLinkOf config id links m dto =
    (link : PaymentLink) × (find? (is_link m id) links ≡ some link)
    × (link.merchant_id ≡ m)
    × (dto ≡ to_dto config link)

found_holds : {A : Type 0} (p : A → Bool) (l : List A) (a : A) → find? p l ≡ some a → p a ≡ true
found_holds p [] a e = absurd (ground (arith, e))
found_holds p (x ∷ l) a e = elim (Bool-cases (p x)) [
  | inl b ↦ ap p (sym (ground (arith, (rw b at e)))) ∙ b
  | inr b ↦ found_holds p l a (rw b at e)
]

owner_lem :
    (o : Option ApiKey) (m : ℕ)
    → active_owner o ≡ some m
    → (k : ApiKey) × (o ≡ some k) × (k.is_active ≡ true) × (k.merchant_id ≡ m)
owner_lem none m e = absurd (ground (arith, e))
owner_lem (some k) m e = elim (Bool-cases k.is_active) [
  | inl b ↦ (k, refl, b, ground (arith, (rw b at e)))
  | inr b ↦ absurd (ground (arith, (rw b at e)))
]

shown-IsLinkOf :
    (config : LinkConfig) (m id : ℕ) (links : List PaymentLink) (dto : LinkDto)
    → find_one config m id links ≡ ok dto
    → IsLinkOf config id links m dto
unfolding find_one
shown-IsLinkOf config m id links dto e = elim (Option-cases (find? (is_link m id) links)) [
  | inl f ↦ absurd (ground (arith, (rw f at e)))
  | inr (link, f) ↦ (
    link,
    f,
    (==_iff link.merchant_id m).0 (ground (arith, found_holds (is_link m id) links link f)),
    sym (ground (arith, (rw f at e))),
  )
]

-- The merchant is set, and the request has a key of it.
abbrev IsGuarded : (Text → Text) → GuardRequest → Directory → GuardRequest → Type 0
IsGuarded sha256 req d r = (m : ℕ) × (r.merchant_id ≡ some m) × HasKeyOf sha256 req d m

check_key-IsGuarded :
    (sha256 : Text → Text) (req : GuardRequest) (d : Directory) (o : Option Text)
    → bearer_token req.authorization ≡ o
    → OnOk (IsGuarded sha256 req d) (check_key sha256 req d o)
unfolding validate_api_key
check_key-IsGuarded sha256 req d none f = tt
check_key-IsGuarded sha256 req d (some token) f =
    elim (Option-cases (active_owner (find? (has_hash (sha256 token)) d.api_keys))) [
      | inl g ↦ rw g tt
      | inr (m, g) ↦
          rw g (m, refl, (token, f, owner_lem (find? (has_hash (sha256 token)) d.api_keys) m g))
    ]

guarded :
    (sha256 : Text → Text) (req : GuardRequest) (d : Directory)
    → OnOk (IsGuarded sha256 req d) (api_key_guard sha256 req d)
unfolding api_key_guard
guarded sha256 req d = check_key-IsGuarded sha256 req d (bearer_token req.authorization) refl

show_for-HasKeyOf :
    (config : LinkConfig) (sha256 : Text → Text) (req : GuardRequest) (d : Directory) (id : ℕ)
    (links : List PaymentLink) (dto : LinkDto) (r : Result Refusal GuardRequest)
    → OnOk (IsGuarded sha256 req d) r
    → show_for config id links r ≡ ok dto
    → (m : ℕ) × HasKeyOf sha256 req d m × IsLinkOf config id links m dto
show_for-HasKeyOf config sha256 req d id links dto (err e) h same = absurd (ground (arith, same))
show_for-HasKeyOf config sha256 req d id links dto (ok r) (m, set, key) same =
    (m, key, shown-IsLinkOf config m id links dto (rw set at same))

-- A payment link is shown only to a request with an active API key of the merchant of the link.
pub show_route-HasKeyOf :
    (config : LinkConfig) (sha256 : Text → Text) (req : GuardRequest) (d : Directory) (id : ℕ)
    (links : List PaymentLink) (dto : LinkDto)
    → show_route config sha256 req id d links ≡ ok dto
    → (m : ℕ) × HasKeyOf sha256 req d m × IsLinkOf config id links m dto
unfolding show_route
show_route-HasKeyOf config sha256 req d id links dto same =
    show_for-HasKeyOf config sha256 req d id links dto (api_key_guard sha256 req d)
      (guarded sha256 req d) same
