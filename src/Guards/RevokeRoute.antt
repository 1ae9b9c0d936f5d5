-- ===== src/Guards/RevokeRoute.antt =====
-- DELETE merchants/me/api-keys/:id of src/merchants/merchants.controller.ts, with its guards.
use orbit_stream_backend.Common.{ℕ, List, [], ◌∷◌, Option, none, some, Result, ok, err}
use orbit_stream_backend.Store.{Session}
use orbit_stream_backend.Merchants.{Merchant, admin, merchant, Directory, Outside, find_by_wallet}
use orbit_stream_backend.Merchants.ApiKeys.{revoke_api_key}
use orbit_stream_backend.Guards.{
  Refusal, server_error, not_found, GuardRequest, api_key, roles_guard, ownership_guard,
}
use orbit_stream_backend.Guards.JwtStrategy.{User}

-- The handler `revokeApiKey` of src/merchants/merchants.controller.ts.
abbrev pub revoke_handler :
    Outside → Option Merchant → ℕ → Directory → Result Refusal (Unit {0}) × Directory
revoke_handler out none key_id d = (err server_error, d)
revoke_handler out (some m) key_id d =
    let (result, d') = revoke_api_key out m.id key_id d in
    (elim result [ ok u ↦ ok u | err e ↦ err not_found ], d')

abbrev pub then_next :
    Result Refusal (Unit {0}) × Directory
    → (Directory → Result Refusal (Unit {0}) × Directory)
    → Result Refusal (Unit {0}) × Directory
then_next (ok u, d) next = next d
then_next (err e, d) next = (err e, d)

-- The guards of the class and of the method, then the handler, for a user that is authenticated.
unfoldable pub revoke_route :
    Outside
    → User
    → GuardRequest
    → ℕ
    → List Session
    → Directory
    → Result Refusal (Unit {0}) × Directory
unfolding roles_guard ownership_guard find_by_wallet revoke_api_key
revoke_route out user req key_id sessions d =
    let r = record req { merchant_id = user.merchant_id; resource_id = some key_id } in
    then_next (roles_guard out (admin ∷ merchant ∷ []) r d) (λ d1.
      then_next (ownership_guard out (some api_key) r sessions d1)
        (λ d2. revoke_handler out (find_by_wallet user.wallet_address d2) key_id d2))
