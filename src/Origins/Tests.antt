-- ===== src/Origins/Tests.antt =====
-- A merchant with two origins and a refresh of the cache, and the theorems applied to them.
use orbit_stream_backend.Common.{◌≡◌, refl, false, [], ◌∷◌, some, ok}
use orbit_stream_backend.Common.Text.{codes}
use orbit_stream_backend.Merchants.{Merchant, Directory, Outside, new_merchant}
use orbit_stream_backend.Origins.{
  CacheCall, Platform, refresh_cache, get_all_merchant_origins, set_cors_origins, invalidated,
}
use orbit_stream_backend.Origins.Stale.{
  Reach, empty_cache, IsRecent, get_all_merchant_origins-IsRecent,
}

abbrev outside : Outside
outside = record { fresh_id = 1; random_hex = codes "a1"; sha256 = λ t. t; audit_fails = false }

abbrev shop : Merchant
shop = record (new_merchant outside (codes "GA") (codes "A") (codes "a@a")) {
  cors_origins = some (codes "https://a.io" ∷ codes "https://b.io" ∷ codes "https://a.io" ∷ []);
}

abbrev shops : Directory
shops = record { merchants = shop ∷ []; api_keys = []; audit_logs = [] }

abbrev at_time_0 : CacheCall
at_time_0 = record { now = 0; get_fails = false; set_fails = false; database_fails = false }

abbrev refreshed : Platform
refreshed = record { directory = shops; cache = refresh_cache at_time_0 shops empty_cache }

abbrev later : CacheCall
later = record at_time_0 { now = 299_999 }

-- The merchant removes its origins; the still_cached a moment before the entry expires still has them.
removed :
    let q = (set_cors_origins at_time_0 1 [] refreshed).1 in
    (get_all_merchant_origins later q.directory q.cache).0
    ≡ ok (codes "https://a.io" ∷ codes "https://b.io" ∷ [])
unfolding get_all_merchant_origins set_cors_origins invalidated refresh_cache
removed = refl

still_cached :
    (get_all_merchant_origins later shops refreshed.cache).0
    ≡ ok (codes "https://a.io" ∷ codes "https://b.io" ∷ [])
unfolding get_all_merchant_origins refresh_cache
still_cached = refl

get_all_merchant_origins-IsRecent_example :
    IsRecent
      ((299_999, shops) ∷ (0, shops) ∷ [])
      299_999
      (codes "https://a.io" ∷ codes "https://b.io" ∷ [])
get_all_merchant_origins-IsRecent_example =
    get_all_merchant_origins-IsRecent later (codes "https://a.io" ∷ codes "https://b.io" ∷ [])
      (Reach.refreshed at_time_0 (Reach.start shops)) still_cached
