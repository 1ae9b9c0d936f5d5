-- ===== src/Origins/Stale.antt =====
-- How old an answer of the cache can be.
use mathlib.Core.List.{Memᴰ}
use orbit_stream_backend.Common.{
  ℕ, ◌+◌, ◌<◌, ◌≡◌, ◌⊎◌, refl, sym, subst, ◌∙◌, inl, inr, ◌||◌, List, [], ◌∷◌, Option, none, some,
  ltb, ok, arith, Bool-cases,
}
use orbit_stream_backend.Common.Text.{Text}
use orbit_stream_backend.Merchants.{Merchant, Directory, or_empty}
use orbit_stream_backend.Origins.{
  cache_ttl_ms, CacheEntry, OriginsCache, CacheCall, Platform, live, get, entry, set_merchant,
  set_merchants, all_origins, cached_or, refresh_cache, get_merchant_origins,
  get_all_merchant_origins, invalidate_merchant_cache, invalidated, set_cors_origins,
}

-- The times at which the cache read the directory, and what it read.
abbrev pub Reads : Type 0
Reads = List (ℕ × Directory)

abbrev pub empty_cache : OriginsCache
empty_cache = record { of_merchant = λ id. none; of_all = none }

-- What happens to the platform, from an empty cache on: the calls of the cache service at any times and
-- with any failures, setCorsOrigins, and any other change of the tables.
pub data Reach : Reads → Platform → Type 0 where
  start : (d : Directory) → Reach [] (record { directory = d; cache = empty_cache })
  refreshed :
      {h : Reads} {p : Platform} (c : CacheCall)
      → Reach h p
      → Reach ((c.now, p.directory) ∷ h) (record p { cache = refresh_cache c p.directory p.cache })
  asked_all :
      {h : Reads} {p : Platform} (c : CacheCall)
      → Reach h p
      → Reach
          ((c.now, p.directory) ∷ h)
          (record p { cache = (get_all_merchant_origins c p.directory p.cache).1 })
  asked_one :
      {h : Reads} {p : Platform} (c : CacheCall) (id : ℕ)
      → Reach h p
      → Reach
          ((c.now, p.directory) ∷ h)
          (record p { cache = (get_merchant_origins c id p.directory p.cache).1 })
  origins_set :
      {h : Reads} {p : Platform} (c : CacheCall) (id : ℕ) (origins : List Text)
      → Reach h p
      → Reach h (set_cors_origins c id origins p).1
  changed :
      {h : Reads} {p : Platform} (d : Directory) → Reach h p → Reach h (record p { directory = d })

-- The origins are those of a directory that was read less than five minutes before.
abbrev pub IsRecent : Reads → ℕ → List Text → Type 0
IsRecent h now origins =
    (t : ℕ) × (d : Directory) × Memᴰ (t, d) h × (origins ≡ all_origins d) × (now < t + cache_ttl_ms)

-- The entry for all merchants was written from a directory that was read.
abbrev IsWritten : Reads → Option CacheEntry → Type 0
IsWritten h none = Unit
IsWritten h (some e) =
    (t : ℕ) × (d : Directory) × Memᴰ (t, d) h
    × (e.origins ≡ all_origins d)
    × (e.expires_at ≡ t + cache_ttl_ms)

IsWritten-cons :
    (x : ℕ × Directory) (h : Reads) (e : Option CacheEntry) → IsWritten h e → IsWritten (x ∷ h) e
IsWritten-cons x h none w = tt
IsWritten-cons x h (some e) (t, d, m, same, at) = (t, d, Memᴰ.tail m, same, at)

cached_or-keeps :
    (P : OriginsCache → Type 0) (c : CacheCall) (o : Option (List Text)) (current : List Text)
    (written s : OriginsCache)
    → P written
    → P s
    → P (cached_or c o current written s).1
cached_or-keeps P c (some origins) current written s w h = h
cached_or-keeps P c none current written s w h = elim (Bool-cases c.database_fails) [
  | inl b ↦ rw b h
  | inr b ↦ elim (Bool-cases c.set_fails) [ inl f ↦ rw (b, f) h | inr f ↦ rw (b, f) w ]
]

set_merchants-of_all :
    (c : CacheCall) (ms : List Merchant) (s : OriginsCache)
    → (set_merchants c ms s).of_all ≡ s.of_all
set_merchants-of_all c [] s = refl
set_merchants-of_all c (m ∷ ms) s =
    set_merchants-of_all c ms (set_merchant c m.id (or_empty m.cors_origins) s)

invalidate-of_all :
    (c : CacheCall) (id : ℕ) (d : Directory) (s : OriginsCache)
    → (invalidate_merchant_cache c id d s).1.of_all ≡ s.of_all
unfolding invalidate_merchant_cache
invalidate-of_all c id d s = elim (Bool-cases c.set_fails) [
  | inl b ↦ rw b refl
  | inr b ↦ elim (Bool-cases c.database_fails) [ inl f ↦ rw (b, f) refl | inr f ↦ rw (b, f) refl ]
]

invalidated-of_all :
    (c : CacheCall) (id : ℕ) (o : Option Merchant) (d : Directory) (p : Platform)
    → (invalidated c id o d p).1.cache.of_all ≡ p.cache.of_all
unfolding invalidated
invalidated-of_all c id none d p = refl
invalidated-of_all c id (some m) d p = invalidate-of_all c id d p.cache

pub set_cors_origins-of_all :
    (c : CacheCall) (id : ℕ) (origins : List Text) (p : Platform)
    → (set_cors_origins c id origins p).1.cache.of_all ≡ p.cache.of_all
unfolding set_cors_origins
set_cors_origins-of_all c id origins p = invalidated-of_all c id _ _ p

-- The entry that a read of the directory writes.
IsWritten-head :
    (c : CacheCall) (d : Directory) (h : Reads)
    → IsWritten ((c.now, d) ∷ h) (some (entry c (all_origins d)))
IsWritten-head c d h = (c.now, d, Memᴰ.head refl, refl, refl)

Reach-IsWritten : {h : Reads} {p : Platform} → Reach h p → IsWritten h p.cache.of_all
unfolding refresh_cache get_all_merchant_origins get_merchant_origins
Reach-IsWritten (start d) = tt
Reach-IsWritten (refreshed {h = h'} {p = q} c r) =
    elim (Bool-cases (c.database_fails || c.set_fails)) [
      | inl b ↦ rw b (IsWritten-cons (c.now, q.directory) h' q.cache.of_all (Reach-IsWritten r))
      | inr b ↦ rw b (IsWritten-head c q.directory h')
    ]
Reach-IsWritten (asked_all {h = h'} {p = q} c r) =
    cached_or-keeps (λ s. IsWritten ((c.now, q.directory) ∷ h') s.of_all) c (get c q.cache.of_all) _
      _ q.cache (IsWritten-head c q.directory h')
      (IsWritten-cons (c.now, q.directory) h' q.cache.of_all (Reach-IsWritten r))
Reach-IsWritten (asked_one {h = h'} {p = q} c id r) =
    cached_or-keeps (λ s. IsWritten ((c.now, q.directory) ∷ h') s.of_all) c
      (get c (q.cache.of_merchant id)) _ _ q.cache
      (IsWritten-cons (c.now, q.directory) h' q.cache.of_all (Reach-IsWritten r))
      (IsWritten-cons (c.now, q.directory) h' q.cache.of_all (Reach-IsWritten r))
Reach-IsWritten (origins_set {h = h'} {p = q} c id origins r) =
    subst (IsWritten h') (sym (set_cors_origins-of_all c id origins q)) (Reach-IsWritten r)
Reach-IsWritten (changed d r) = Reach-IsWritten r

live-IsRecent :
    (h : Reads) (now : ℕ) (e : Option CacheEntry) (origins : List Text)
    → IsWritten h e
    → live now e ≡ some origins
    → IsRecent h now origins
live-IsRecent h now none origins w l = absurd (ground (arith, l))
live-IsRecent h now (some e) origins (t, d, m, same, at) l =
    elim (Bool-cases (ltb now e.expires_at)) [
      | inl b ↦ (t, d, m, ground (arith, l, b, same), ground (arith, b, at))
      | inr b ↦ absurd (ground (arith, l, b))
    ]

get-IsRecent :
    (h : Reads) (c : CacheCall) (e : Option CacheEntry) (origins : List Text)
    → IsWritten h e
    → get c e ≡ some origins
    → IsRecent h c.now origins
get-IsRecent h c e origins w g = elim (Bool-cases c.get_fails) [
  | inl b ↦ absurd (ground (arith, g, b))
  | inr b ↦ live-IsRecent h c.now e origins w (sym (rw b refl) ∙ g)
]

answer_cases :
    (c : CacheCall) (o : Option (List Text)) (current origins : List Text)
    (written s : OriginsCache)
    → (cached_or c o current written s).0 ≡ ok origins
    → (o ≡ some origins) ⊎ (origins ≡ current)
answer_cases c (some os) current origins written s e = inl (ground (arith, e))
answer_cases c none current origins written s e = elim (Bool-cases c.database_fails) [
  | inl b ↦ absurd (ground (arith, e, b))
  | inr b ↦ elim (Bool-cases c.set_fails) [
    | inl f ↦ absurd (ground (arith, e, b, f))
    | inr f ↦ inr (ground (arith, e, b, f))
  ]
]

-- Every answer for all merchants, at any reachable platform, is the list of a directory that the cache
-- has read in the last five minutes, this call included.
pub get_all_merchant_origins-IsRecent :
    {h : Reads} {p : Platform}
    → (c : CacheCall) (origins : List Text) → Reach h p
    → (get_all_merchant_origins c p.directory p.cache).0 ≡ ok origins
    → IsRecent ((c.now, p.directory) ∷ h) c.now origins
unfolding get_all_merchant_origins
get_all_merchant_origins-IsRecent {h} {p} c origins r e =
    elim (answer_cases c (get c p.cache.of_all) (all_origins p.directory) origins _ p.cache e) [
      | inl kept ↦
          get-IsRecent ((c.now, p.directory) ∷ h) c p.cache.of_all origins
            (IsWritten-cons (c.now, p.directory) h p.cache.of_all (Reach-IsWritten r)) kept
      | inr new ↦ (c.now, p.directory, Memᴰ.head refl, new, ground arith)
    ]
