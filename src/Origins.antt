-- ===== src/Origins.antt =====
-- src/middleware/cors-origins-cache.service.ts, and setCorsOrigins of src/merchants/merchants.service.ts,
-- which calls it: the origins of the merchants in Redis, per merchant and for all of them.
pub mod Union
pub mod Stale
mod Tests
use orbit_stream_backend.Common.{
  ℕ, ◌+◌, ◌*◌, ◌==◌, Bool, true, false, not, ◌||◌, List, [], ◌∷◌, ◌++◌, Option, none, some,
  if◌then◌else◌, ltb, find?, any, Result, ok, err,
}
use orbit_stream_backend.Common.Text.{Text, text_eq}
use orbit_stream_backend.Merchants.{
  Merchant, Directory, MerchantError, not_found, has_merchant_id, or_empty, update_merchant,
}

abbrev pub cache_ttl_ms : ℕ
cache_ttl_ms = 5 * 60 * 1000

-- A key of Redis that expires; what JSON.parse gives back is the list that was written.
pub record CacheEntry : Type 0 where
  pub origins : List Text
  pub expires_at : ℕ

-- The keys orbitstream:cors_origins:<id> and orbitstream:cors_origins:all
pub record OriginsCache : Type 0 where
  pub of_merchant : ℕ → Option CacheEntry
  pub of_all : Option CacheEntry

-- The time of a call, and what of Redis and of the reads from the database fails in it.
pub record CacheCall : Type 0 where
  pub now : ℕ
  pub get_fails : Bool
  pub set_fails : Bool
  pub database_fails : Bool

pub data CacheError : Type 0 where
  redis database : CacheError

abbrev pub live : ℕ → Option CacheEntry → Option (List Text)
live now none = none
live now (some e) = if ltb now e.expires_at then some e.origins else none

abbrev pub get : CacheCall → Option CacheEntry → Option (List Text)
get c e = if c.get_fails then none else live c.now e

abbrev pub entry : CacheCall → List Text → CacheEntry
entry c origins = record { origins = origins; expires_at = c.now + cache_ttl_ms }

abbrev pub set_merchant : CacheCall → ℕ → List Text → OriginsCache → OriginsCache
set_merchant c id origins s = record s {
  of_merchant = λ i. if i == id then some (entry c origins) else s.of_merchant i;
}

abbrev pub contains : List Text → Text → Bool
contains os o = any (text_eq o) os

-- The texts of a list, put one by one into a Set, which keeps the order.
abbrev pub add_all : List Text → List Text → List Text
add_all os [] = os
add_all os (x ∷ xs) = add_all (if contains os x then os else os ++ x ∷ []) xs

abbrev pub add_merchants : List Text → List Merchant → List Text
add_merchants os [] = os
add_merchants os (m ∷ ms) = add_merchants (add_all os (or_empty m.cors_origins)) ms

abbrev pub all_origins : Directory → List Text
all_origins d = add_merchants [] d.merchants

abbrev pub set_merchants : CacheCall → List Merchant → OriginsCache → OriginsCache
set_merchants c [] s = s
set_merchants c (m ∷ ms) s = set_merchants c ms (set_merchant c m.id (or_empty m.cors_origins) s)

-- A pipeline that fails writes nothing.
unfoldable pub refresh_cache : CacheCall → Directory → OriginsCache → OriginsCache
refresh_cache c d s =
    if c.database_fails || c.set_fails
    then s
    else record (set_merchants c d.merchants s) { of_all = some (entry c (all_origins d)) }

abbrev pub origins_of : ℕ → Directory → List Text
origins_of id d = elim (find? (has_merchant_id id) d.merchants) [
  | none ↦ []
  | some m ↦ or_empty m.cors_origins
]

abbrev pub cached_or :
    CacheCall
    → Option (List Text)
    → List Text
    → OriginsCache
    → OriginsCache
    → Result CacheError (List Text) × OriginsCache
cached_or c (some origins) current written s = (ok origins, s)
cached_or c none current written s =
    if c.database_fails
    then (err database, s)
    else if c.set_fails
    then (err redis, s)
    else (ok current, written)

unfoldable pub get_merchant_origins :
    CacheCall → ℕ → Directory → OriginsCache → Result CacheError (List Text) × OriginsCache
get_merchant_origins c id d s =
    cached_or c (get c (s.of_merchant id)) (origins_of id d) (set_merchant c id (origins_of id d) s)
      s

unfoldable pub get_all_merchant_origins :
    CacheCall → Directory → OriginsCache → Result CacheError (List Text) × OriginsCache
get_all_merchant_origins c d s =
    cached_or c (get c s.of_all) (all_origins d)
      (record s { of_all = some (entry c (all_origins d)) }) s

-- The key is deleted first, outside the `try`.
unfoldable pub invalidate_merchant_cache :
    CacheCall → ℕ → Directory → OriginsCache → Result CacheError (Unit {0}) × OriginsCache
invalidate_merchant_cache c id d s =
    if c.set_fails
    then (err redis, s)
    else if c.database_fails
    then (ok tt, record s { of_merchant = λ i. if i == id then none else s.of_merchant i })
    else (ok tt, set_merchant c id (origins_of id d) s)

pub record Platform : Type 0 where
  pub directory : Directory
  pub cache : OriginsCache

-- What follows the update, for the row that it returned.
unfoldable pub invalidated :
    CacheCall
    → ℕ
    → Option Merchant
    → Directory
    → Platform
    → Result MerchantError (List Text) × Platform
unfolding invalidate_merchant_cache
invalidated c id none d p = (err not_found, p)
invalidated c id (some m) d p =
    let (result, cache) = invalidate_merchant_cache c id d p.cache in
    (
      elim result [ ok u ↦ ok (or_empty m.cors_origins) | err e ↦ err MerchantError.database ],
      record { directory = d; cache = cache },
    )

-- `setCorsOrigins`; its exceptions are `not_found`, and `database` for a failure outside.
unfoldable pub set_cors_origins :
    CacheCall → ℕ → List Text → Platform → Result MerchantError (List Text) × Platform
unfolding invalidated
set_cors_origins c id origins p =
    let d = update_merchant id (λ m. record m { cors_origins = some origins }) p.directory in
    invalidated c id (find? (has_merchant_id id) d.merchants) d p
