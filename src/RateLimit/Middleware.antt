-- ===== src/RateLimit/Middleware.antt =====
-- `check` of src/api/middleware/rate-limit.service.ts, which falls back on the window in memory, and
-- `use` of rate-limit.middleware.ts.
use orbit_stream_backend.Common.{ℕ, ◌+◌, ◌≤◌, ◌≡◌, false, Option, none, if◌then◌else◌, ltb, arith}
use orbit_stream_backend.Common.Text.{Text, text_eq}
use orbit_stream_backend.RateLimit.Rules.{Request, is_exempt, resolve_rule, rate_limit_identity}
use orbit_stream_backend.RateLimit.Keyspace.{keyspace}
use orbit_stream_backend.RateLimit.Window.{
  RateLimitResult, build_result, check_timestamps, MemoryStore, check_memory, fallback_limit,
}
use orbit_stream_backend.RateLimit.Script.{SortedSets, sliding_window, check_redis}

-- How Redis is found by one call: the client is missing or not ready, the script runs, or it throws.
pub data Backend : Type 0 where
  not_ready runs throws : Backend

-- What the middleware does: it goes on without or with the headers X-RateLimit-Limit, -Remaining and
-- -Reset, or answers 429 with these and Retry-After.
pub data Answer : Type 0 where
  passes : Answer
  passes_with : ℕ → ℕ → ℕ → Answer
  too_many_requests : ℕ → ℕ → ℕ → ℕ → Answer

abbrev pub answer : RateLimitResult → Answer
answer r =
    if r.allowed
    then passes_with r.limit r.remaining r.reset_seconds
    else too_many_requests r.limit r.remaining r.reset_seconds r.retry_after_seconds

module _ (redis : SortedSets) where
  -- The service: the timestamps in memory, the sets in Redis, and the time of the last warning.
  pub record Limiter : Type 0 where
    pub memory : MemoryStore
    pub sets : Text → redis.ZSet
    pub last_degraded_warn : ℕ

  -- `warnDegraded`
  abbrev pub warn_degraded : ℕ → Limiter → Limiter
  warn_degraded now s =
      if ltb (s.last_degraded_warn + 10_000) now then record s { last_degraded_warn = now } else s

  abbrev pub degrade : Text → ℕ → ℕ → Limiter → RateLimitResult × Limiter
  degrade key limit now s =
      let (r, memory) = check_memory key limit now s.memory in (r, record s { memory = memory })

  -- The key of the set is `ratelimit:${keyspace}`, one for each keyspace.
  unfoldable pub check :
      Text → ℕ → Option ℕ → ℕ → Text → Backend → Limiter → RateLimitResult × Limiter
  unfolding check_memory check_redis
  check key limit degraded_limit now member not_ready s =
      degrade key (fallback_limit limit degraded_limit) now s
  check key limit degraded_limit now member runs s =
      let (r, z) = check_redis redis limit now member (s.sets key) in
      (r, record s { sets = λ j. if text_eq key j then z else s.sets j })
  check key limit degraded_limit now member throws s =
      degrade key (fallback_limit limit degraded_limit) now (warn_degraded now s)

  unfoldable pub limit_request : ℕ → Text → Backend → Request → Limiter → Answer × Limiter
  unfolding check resolve_rule rate_limit_identity keyspace
  limit_request now member backend req s =
      if is_exempt req.path
      then (passes, s)
      else (let rule = resolve_rule req.method req.path in
          let (r, s') =
            check (keyspace rule (rate_limit_identity req rule)) rule.limit none now member backend
              s in
          (answer r, s'))

  check-refuses :
      (key : Text) (limit : ℕ) (degraded_limit : Option ℕ) (now : ℕ) (member : Text)
      (backend : Backend) (s : Limiter)
      → let r = (check key limit degraded_limit now member backend s).0 in
        r.allowed ≡ false → (r.remaining ≡ 0) × (1 ≤ r.retry_after_seconds)
  unfolding check check_memory check_timestamps check_redis sliding_window build_result
  check-refuses key limit degraded_limit now member not_ready s e = ground arith
  check-refuses key limit degraded_limit now member runs s e = ground arith
  check-refuses key limit degraded_limit now member throws s e = ground arith

  -- A request that is answered with 429 has a path that is not exempt, is told that nothing remains,
  -- and to wait for at least a second, whichever way Redis is found.
  pub limit_request-refuses :
      (now : ℕ) (member : Text) (backend : Backend) (req : Request) (s : Limiter)
      {limit remaining reset retry_after : ℕ}
      → (limit_request now member backend req s).0
        ≡ too_many_requests limit remaining reset retry_after
      → (is_exempt req.path ≡ false) × (remaining ≡ 0) × (1 ≤ retry_after)
  unfolding limit_request
  limit_request-refuses now member backend req s e =
      let rule = resolve_rule req.method req.path in
      ground (
        arith,
        check-refuses (keyspace rule (rate_limit_identity req rule)) rule.limit none now member
            backend s,
      )
