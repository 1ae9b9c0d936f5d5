-- ===== src/Cors.antt =====
-- src/middleware/dynamic-cors.middleware.ts: the groups of routes, and what the middleware answers.
pub mod Routes
mod Tests
use orbit_stream_backend.Common.{
  ℕ, ◌==◌, Bool, true, false, not, ◌&&◌, ◌||◌, List, [], ◌∷◌, ◌++◌, Option, none, some,
  if◌then◌else◌, any, reverse, leb, length, Result, ok, err,
}
use orbit_stream_backend.Common.Text.{Text, codes, text_eq, starts_with, is_empty}
use orbit_stream_backend.Merchants.{Directory}
use orbit_stream_backend.Origins.{CacheCall, CacheError, OriginsCache, get_all_merchant_origins}

pub data RouteGroup : Type 0 where
  public merchant_api dashboard : RouteGroup

-- [^\/]+$
abbrev no_slashes : Text → Bool
no_slashes [] = true
no_slashes (c ∷ cs) = not (c == 47) && no_slashes cs

abbrev pub one_segment : Text → Bool
one_segment [] = false
one_segment (c ∷ cs) = not (c == 47) && no_slashes cs

abbrev pub drop_prefix : Text → Text → Option Text
drop_prefix [] path = some path
drop_prefix (p ∷ ps) [] = none
drop_prefix (p ∷ ps) (c ∷ cs) = if p == c then drop_prefix ps cs else none

abbrev pub some_segment : Option Text → Bool
some_segment none = false
some_segment (some rest) = one_segment rest

-- /^\/v1\/checkout\/sessions\/[^\/]+$/
abbrev pub is_session_path : Text → Bool
is_session_path path = some_segment (drop_prefix (codes "/v1/checkout/sessions/") path)

unfoldable pub get_route_group : Text → Text → RouteGroup
get_route_group path method =
    if starts_with path (codes "/health") || starts_with path (codes "/metrics")
    then public
    else if text_eq method (codes "GET") && is_session_path path
    then public
    else if text_eq method (codes "POST") && text_eq path (codes "/merchants/register")
    then public
    else if starts_with path (codes "/v1/checkout/")
    then merchant_api
    else if starts_with path (codes "/v1/webhooks/")
    then merchant_api
    else if starts_with path (codes "/merchants/")
    then dashboard
    else if starts_with path (codes "/auth/")
    then dashboard
    else public

-- `a.endsWith('/*')`, and `a.slice(0, -1)`
abbrev pub ends_with_wildcard : Text → Bool
ends_with_wildcard a = starts_with (reverse a) (codes "*/")

abbrev pub all_but_last : Text → Text
all_but_last [] = []
all_but_last (c ∷ []) = []
all_but_last (c ∷ d ∷ cs) = c ∷ all_but_last (d ∷ cs)

abbrev pub matches : Text → Text → Bool
matches origin a =
    text_eq a origin
    || text_eq a (codes "*")
    || (ends_with_wildcard a && starts_with origin (all_but_last a))

unfoldable pub origin_matches : Text → List Text → Bool
origin_matches origin allowed = any (matches origin) allowed

pub record CorsRequest : Type 0 where
  pub origin : Option Text
  pub method : Text
  pub path : Text

-- What the middleware does: it ends a preflight with 204, refuses with 403, or calls `next`; with the
-- origin of Access-Control-Allow-Origin, which comes with Access-Control-Allow-Credentials: true.
pub data CorsReply : Type 0 where
  preflight : Text → CorsReply
  denied : CorsReply
  next : Option Text → CorsReply

-- The empty text is no origin.
abbrev pub truthy : Option Text → Option Text
truthy none = none
truthy (some o) = if is_empty o then none else some o

abbrev pub allow_if : Bool → Text → Option Text
allow_if true origin = some origin
allow_if false origin = none

-- `getAllowedMerchantOrigins`
abbrev pub or_no_origins : Result CacheError (List Text) → List Text
or_no_origins (ok os) = os
or_no_origins (err e) = []

-- The `switch`, with the platform's origin and the result of the cache.
unfoldable pub allowed_origin : RouteGroup → Text → List Text → Option Text → Option Text
unfolding origin_matches
allowed_origin public platform origins origin = origin
allowed_origin merchant_api platform origins none = some platform
allowed_origin merchant_api platform origins (some o) =
    allow_if (origin_matches o (origins ++ platform ∷ [])) o
allowed_origin dashboard platform origins none = some platform
allowed_origin dashboard platform origins (some o) = allow_if (text_eq o platform) o

abbrev pub answer_request : Text → Option Text → Option Text → CorsReply
answer_request method origin (some o) =
    if text_eq method (codes "OPTIONS") then preflight o else next (some o)
answer_request method (some o) none = denied
answer_request method none none = next none

-- Only the routes of the merchant API with an origin ask the cache.
abbrev pub asks_cache : RouteGroup → Option Text → Bool
asks_cache merchant_api (some o) = true
asks_cache _ _ = false

abbrev pub ask : Bool → CacheCall → Directory → OriginsCache → List Text × OriginsCache
ask false c d s = ([], s)
ask true c d s =
    let (result, after) = get_all_merchant_origins c d s in (or_no_origins result, after)

-- `use`; the platform's origin is not the empty text.
unfoldable pub use_middleware :
    CacheCall → Text → CorsRequest → Directory → OriginsCache → CorsReply × OriginsCache
unfolding get_route_group allowed_origin
use_middleware c platform req d s =
    let origin = truthy req.origin in
    let group = get_route_group req.path req.method in
    let (origins, after) = ask (asks_cache group origin) c d s in
    (answer_request req.method origin (allowed_origin group platform origins origin), after)
