-- ===== src/Cors/Routes.antt =====
-- Which requests the CORS middleware lets through.
use orbit_stream_backend.Common.{
  ℕ, ◌≡◌, ◌≢◌, ◌↔◌, refl, ap, subst, ◌∙◌, inl, inr, Bool, true, false, ◌||◌, List, [], ◌∷◌, ◌++◌,
  none, some, if◌then◌else◌, any, arith, Bool-cases,
}
use orbit_stream_backend.Common.Text.{Text, codes, text_eq, is_empty}
use orbit_stream_backend.Merchants.{Directory, or_empty}
use orbit_stream_backend.Origins.{
  CacheCall, OriginsCache, Platform, get, get_all_merchant_origins, set_cors_origins,
}
use orbit_stream_backend.Origins.Stale.{set_cors_origins-of_all}
use orbit_stream_backend.Origins.Union.{any-append, any-all_origins}
use orbit_stream_backend.Cors.{
  merchant_api, CorsRequest, denied, next, matches, origin_matches, truthy, allow_if, or_no_origins,
  get_route_group, answer_request, asks_cache, ask, allowed_origin, use_middleware,
}

-- A merchant, or the platform, allows the origin; the merchants are not known if the read fails.
abbrev pub is_allowed : CacheCall → Text → Text → Directory → Bool
is_allowed c platform o d =
    (if c.database_fails || c.set_fails
      then false
      else any (λ m. any (matches o) (or_empty m.cors_origins)) d.merchants)
    || matches o platform

not_denied : (method o : Text) → answer_request method (some o) (some o) ≢ denied
not_denied method o e = elim (Bool-cases (text_eq method (codes "OPTIONS"))) [
  | inl b ↦ ground (arith, e, b)
  | inr b ↦ ground (arith, e, b)
]

reply_iff :
    (method o : Text) (b : Bool)
    → (answer_request method (some o) (allow_if b o) ≢ denied) ↔ (b ≡ true)
reply_iff method o true = (λ h. refl, λ h e. not_denied method o e)
reply_iff method o false = (λ h. absurd (h refl), λ h. absurd (ground (arith, h)))

or_last : (a b c : Bool) → a ≡ c → a || (b || false) ≡ c || b
or_last a b c e = ground arith

uncached :
    (c : CacheCall) (o : Text) (d : Directory) (s : OriginsCache)
    → get c s.of_all ≡ none
    → any (matches o) (or_no_origins (get_all_merchant_origins c d s).0) ≡ (
        if c.database_fails || c.set_fails
        then false
        else any (λ m. any (matches o) (or_empty m.cors_origins)) d.merchants)
unfolding get_all_merchant_origins
uncached c o d s e = elim (Bool-cases c.database_fails) [
  | inl b ↦ rw (e, b) refl
  | inr b ↦ elim (Bool-cases c.set_fails) [
    | inl f ↦ rw (e, b, f) refl
    | inr f ↦ rw (e, b, f) (any-all_origins (matches o) d)
  ]
]

-- On the merchant API, without a live entry in the cache, a request with an origin is not refused exactly
-- if an origin of some merchant or the platform's matches; when the database, or the write to Redis,
-- fails, exactly if the platform's does.
pub use_middleware_iff :
    (c : CacheCall) (platform o : Text) (req : CorsRequest) (d : Directory) (s : OriginsCache)
    → get_route_group req.path req.method ≡ merchant_api
    → truthy req.origin ≡ some o
    → get c s.of_all ≡ none
    → ((use_middleware c platform req d s).0 ≢ denied) ↔ (is_allowed c platform o d ≡ true)
unfolding use_middleware allowed_origin origin_matches
use_middleware_iff c platform o req d s group from e =
    rw (group, from)
      (subst
        (λ b.
          (answer_request req.method (some o)
              (allow_if (origin_matches o (asked ++ platform ∷ [])) o)
            ≢ denied)
          ↔ (b ≡ true))
        (any-append (matches o) asked (platform ∷ [])
          ∙ or_last (any (matches o) asked) (matches o platform) _ (uncached c o d s e))
        (reply_iff req.method o (origin_matches o (asked ++ platform ∷ []))))
  where
    asked : List Text
    asked = or_no_origins (get_all_merchant_origins c d s).0

-- A browser asks by OPTIONS before it sends a JSON body. POST /merchants/register is let through for
-- every origin, but its preflight for none but the platform's.
pub use_middleware-preflight :
    (c : CacheCall) (platform o : Text) (d : Directory) (s : OriginsCache)
    → is_empty o ≡ false
    → text_eq o platform ≡ false
    → let to : Text → CorsRequest =
        λ method. record { origin = some o; method = method; path = codes "/merchants/register" } in
      ((use_middleware c platform (to (codes "POST")) d s).0 ≡ next (some o))
      × ((use_middleware c platform (to (codes "OPTIONS")) d s).0 ≡ denied)
unfolding use_middleware get_route_group allowed_origin
use_middleware-preflight c platform o d s full foreign = rw (full, foreign) (refl, refl)

ask_kept :
    (b : Bool) (c : CacheCall) (kept : List Text) (d d' : Directory) (s s' : OriginsCache)
    → get c s.of_all ≡ some kept
    → s'.of_all ≡ s.of_all
    → (ask b c d' s').0 ≡ (ask b c d s).0
unfolding get_all_merchant_origins
ask_kept false c kept d d' s s' e same = refl
ask_kept true c kept d d' s s' e same = rw (same, e) refl

-- As long as the entry for all merchants lives in Redis, setCorsOrigins changes no answer of the
-- middleware: an origin that a merchant removes is let through, and one that it adds is refused.
pub use_middleware-stale :
    (c later : CacheCall) (platform : Text) (req : CorsRequest) (id : ℕ) (origins kept : List Text)
    (p : Platform)
    → get later p.cache.of_all ≡ some kept
    → let q = (set_cors_origins c id origins p).1 in
      (use_middleware later platform req q.directory q.cache).0
      ≡ (use_middleware later platform req p.directory p.cache).0
unfolding use_middleware
use_middleware-stale c later platform req id origins kept p e =
    let q = (set_cors_origins c id origins p).1 in
    let origin = truthy req.origin in
    let group = get_route_group req.path req.method in
    ap (λ os. answer_request req.method origin (allowed_origin group platform os origin))
      (ask_kept (asks_cache group origin) later kept p.directory q.directory p.cache q.cache e
        (set_cors_origins-of_all c id origins p))
