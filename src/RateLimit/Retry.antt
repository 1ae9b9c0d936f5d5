-- ===== src/RateLimit/Retry.antt =====
-- Retry-After is long enough.
use orbit_stream_backend.Common.{
  ℕ, ◌+◌, ◌-◌, ◌*◌, ◌≤◌, ◌<◌, ◌≡◌, refl, true, false, List, [], ◌∷◌, filter, length,
  length-filter-le, length-append, arith, max,
}
use orbit_stream_backend.RateLimit.Window.{
  window_ms, is_recent, oldest, ceil_seconds, check_timestamps, build_result,
}

-- At most `limit` timestamps are kept, whatever the clock does.
pub check_timestamps-length :
    (limit now : ℕ) (ts : List ℕ)
    → length ts ≤ limit
    → length (check_timestamps limit now ts).1 ≤ limit
unfolding check_timestamps
check_timestamps-length limit now ts h = ground (
  arith,
  length-filter-le (is_recent now) ts,
  length-append (filter (is_recent now) ts) (now ∷ []),
)

room_later :
    (limit later : ℕ) (ts : List ℕ)
    → length (filter (is_recent later) ts) < limit
    → (check_timestamps limit later ts).0.allowed ≡ true
unfolding check_timestamps build_result
room_later limit later ts h = ground arith

-- Once the first one has aged out, there is room.
oldest_gone :
    (limit later : ℕ) (ts : List ℕ)
    → length ts ≤ limit
    → 0 < limit
    → oldest ts later + window_ms ≤ later
    → length (filter (is_recent later) ts) < limit
oldest_gone limit later [] h pos gone = omega arith
oldest_gone limit later (t ∷ ts) h pos gone = ground (arith, length-filter-le (is_recent later) ts)

refused_kept :
    (limit now : ℕ) (ts : List ℕ)
    → 0 < limit
    → (check_timestamps limit now ts).0.allowed ≡ false
    → ((check_timestamps limit now ts).1 ≡ filter (is_recent now) ts)
      × ((check_timestamps limit now ts).0.retry_after_seconds
          ≡ max 1 (ceil_seconds (oldest (filter (is_recent now) ts) now + window_ms - now)))
      × (limit ≤ length (filter (is_recent now) ts))
unfolding check_timestamps build_result
refused_kept limit now ts pos e = ground arith

oldest_of_full : (ts : List ℕ) (now later : ℕ) → 0 < length ts → oldest ts now ≡ oldest ts later
oldest_of_full [] now later h = absurd (omega arith)
oldest_of_full (t ∷ ts) now later h = refl

-- A client that is refused and waits for the seconds of Retry-After is let through, if no other
-- request for its key comes in between.
pub retry_after_suffices :
    (limit now later : ℕ) (ts : List ℕ)
    → 0 < limit
    → length ts ≤ limit
    → (check_timestamps limit now ts).0.allowed ≡ false
    → now + 1000 * (check_timestamps limit now ts).0.retry_after_seconds ≤ later
    → (check_timestamps limit later (check_timestamps limit now ts).1).0.allowed ≡ true
retry_after_suffices limit now later ts pos fits refused waited =
    let (kept, retry, full) = refused_kept limit now ts pos refused in
    let few : length (filter (is_recent now) ts) ≤ limit =
      omega (arith, length-filter-le (is_recent now) ts) in
    let same = oldest_of_full (filter (is_recent now) ts) now later (omega arith) in
    rw kept (
      room_later limit later (filter (is_recent now) ts) (
        oldest_gone limit later (filter (is_recent now) ts) few pos
          (omega (arith, same, retry, waited))))
