-- ===== src/RateLimit/Window.antt =====
-- src/api/middleware/rate-limit.service.ts: the sliding window in memory, and the result of a check.
-- Times are milliseconds. A subtraction that may fall below zero in the source is turned into an
-- addition on the other side of the comparison.
use orbit_stream_backend.Common.{
  ℕ, ◌+◌, ◌-◌, ◌/◌, Bool, true, false, List, [], ◌∷◌, ◌++◌, Option, none, some, if◌then◌else◌, ltb,
  filter, length, max,
}
use orbit_stream_backend.Common.Text.{Text, text_eq}

abbrev pub window_ms : ℕ
window_ms = 60_000

pub record RateLimitResult : Type 0 where
  pub allowed : Bool
  pub limit : ℕ
  pub remaining : ℕ
  pub reset_seconds : ℕ
  pub retry_after_seconds : ℕ
  pub degraded : Bool

-- `Math.ceil(ms / 1000)`
abbrev pub ceil_seconds : ℕ → ℕ
ceil_seconds ms = (ms + 999) / 1000

unfoldable pub build_result : Bool → ℕ → ℕ → ℕ → ℕ → Bool → RateLimitResult
build_result allowed count limit oldest_score now degraded =
    let reset_ms = oldest_score + window_ms in
    record {
      allowed = allowed;
      limit = limit;
      remaining = limit - count;
      reset_seconds = ceil_seconds reset_ms;
      retry_after_seconds = if allowed then 0 else max 1 (ceil_seconds (reset_ms - now));
      degraded = degraded;
    }

-- `t > now - WINDOW_MS`
abbrev pub is_recent : ℕ → ℕ → Bool
is_recent now t = ltb now (t + window_ms)

-- `timestamps[0]`, or now if there is none
abbrev pub oldest : List ℕ → ℕ → ℕ
oldest [] now = now
oldest (t ∷ ts) now = t

-- `checkMemory` on the timestamps of one key: the result and the timestamps kept.
unfoldable pub check_timestamps : ℕ → ℕ → List ℕ → RateLimitResult × List ℕ
unfolding build_result
check_timestamps limit now timestamps =
    let kept = filter (is_recent now) timestamps in
    let count = length kept in
    let pushed = kept ++ now ∷ [] in
    if ltb count limit
    then (build_result true (count + 1) limit (oldest pushed now) now true, pushed)
    else (build_result false count limit (oldest kept now) now true, kept)

-- `memoryStore`, a Map whose missing entries are empty.
abbrev pub MemoryStore : Type 0
MemoryStore = Text → List ℕ

abbrev pub set_entry : MemoryStore → Text → List ℕ → MemoryStore
set_entry store key ts j = if text_eq key j then ts else store j

unfoldable pub check_memory : Text → ℕ → ℕ → MemoryStore → RateLimitResult × MemoryStore
unfolding check_timestamps
check_memory key limit now store =
    let (r, ts) = check_timestamps limit now (store key) in (r, set_entry store key ts)

-- `degradedLimit ?? Math.max(1, Math.floor(limit / 2))`
abbrev pub fallback_limit : ℕ → Option ℕ → ℕ
fallback_limit limit none = max 1 (limit / 2)
fallback_limit limit (some d) = d
