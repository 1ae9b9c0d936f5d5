-- ===== src/Cors/Tests.antt =====
-- Requests to a checkout route and to the registration, and the theorems applied to them.
use orbit_stream_backend.Common.{◌≡◌, ◌≢◌, ◌↔◌, refl, true, false, [], ◌∷◌, none, some}
use orbit_stream_backend.Common.Text.{Text, codes}
use orbit_stream_backend.Merchants.{Merchant, Directory, Outside, new_merchant}
use orbit_stream_backend.Origins.{
  CacheCall, OriginsCache, Platform, cache_ttl_ms, set_cors_origins, get_all_merchant_origins,
}
use orbit_stream_backend.Cors.{
  CorsRequest, denied, next, get_route_group, allowed_origin, origin_matches, use_middleware,
}
use orbit_stream_backend.Cors.Routes.{is_allowed, use_middleware_iff, use_middleware-stale}

abbrev outside : Outside
outside = record { fresh_id = 1; random_hex = codes "a1"; sha256 = λ t. t; audit_fails = false }

abbrev shop : Merchant
shop = record (new_merchant outside (codes "GA") (codes "A") (codes "a@a")) {
  cors_origins = some (codes "https://a.io" ∷ []);
}

abbrev shops : Directory
shops = record { merchants = shop ∷ []; api_keys = []; audit_logs = [] }

abbrev call : CacheCall
call = record { now = 7; get_fails = false; set_fails = false; database_fails = false }

abbrev nothing_cached : OriginsCache
nothing_cached = record { of_merchant = λ id. none; of_all = none }

abbrev create_request : CorsRequest
create_request = record {
  origin = some (codes "https://a.io");
  method = codes "POST";
  path = codes "/v1/checkout/sessions";
}

abbrev platform : Text
platform = codes "https://p.io"

let_through :
    (use_middleware call platform create_request shops nothing_cached).0
    ≡ next (some (codes "https://a.io"))
unfolding use_middleware get_route_group allowed_origin origin_matches get_all_merchant_origins
let_through = refl

use_middleware_iff_example :
    ((use_middleware call platform create_request shops nothing_cached).0 ≢ denied)
    ↔ (is_allowed call platform (codes "https://a.io") shops ≡ true)
unfolding get_route_group
use_middleware_iff_example =
    use_middleware_iff call platform (codes "https://a.io") create_request shops nothing_cached refl
      refl refl

abbrev cached : Platform
cached = record {
  directory = shops;
  cache = record {
    of_merchant = λ id. none;
    of_all = some (record { origins = codes "https://a.io" ∷ []; expires_at = cache_ttl_ms });
  };
}

use_middleware-stale_example :
    let q = (set_cors_origins call 1 [] cached).1 in
    (use_middleware call platform create_request q.directory q.cache).0
    ≡ (use_middleware call platform create_request shops cached.cache).0
use_middleware-stale_example =
    use_middleware-stale call call platform create_request 1 [] (codes "https://a.io" ∷ []) cached
      refl
