-- ===== src/RateLimit/Script.antt =====
-- SLIDING_WINDOW_LUA of src/api/middleware/rate-limit.service.ts, over the sorted set of one key, and
-- `checkRedis`. The commands of Redis are parameters.
use orbit_stream_backend.Common.{
  ℕ, ◌+◌, ◌-◌, ◌≤◌, ◌≡◌, refl, ap, ◌∙◌, Bool, true, false, not, ◌&&◌, List, [], ◌∷◌, ◌++◌, Option,
  none, some, if◌then◌else◌, ltb, leb, filter, length, arith, All, All-filter, head?, inl, inr,
  Bool-cases,
}
use orbit_stream_backend.Common.Text.{Text}
use orbit_stream_backend.RateLimit.Window.{
  RateLimitResult, window_ms, build_result, is_recent, oldest, check_timestamps,
}

-- A score outside a range.
abbrev pub outside : ℕ → ℕ → ℕ → Bool
outside lo hi s = not (leb lo s && leb s hi)

-- A sorted set of Redis, seen through the scores of its members in ascending order.
pub record SortedSets : Type 1 where
  pub ZSet : Type 0
  pub scores : ZSet → List ℕ
  pub has_member : ZSet → Text → Bool
  pub zremrangebyscore : ZSet → ℕ → ℕ → ZSet
  pub zcard : ZSet → ℕ
  pub zadd : ZSet → ℕ → Text → ZSet
  pub first_score : ZSet → Option ℕ
  -- ZREMRANGEBYSCORE takes the members in the closed range out.
  pub scores-zremrangebyscore :
      (z : ZSet) (lo hi : ℕ) → scores (zremrangebyscore z lo hi) ≡ filter (outside lo hi) (scores z)
  -- It adds no member.
  pub has_member-zremrangebyscore :
      (z : ZSet) (lo hi : ℕ) (m : Text)
      → has_member z m ≡ false
      → has_member (zremrangebyscore z lo hi) m ≡ false
  -- ZCARD counts the members.
  pub zcard-scores : (z : ZSet) → zcard z ≡ length (scores z)
  -- ZADD puts a new member with the greatest score last.
  pub scores-zadd :
      (z : ZSet) (s : ℕ) (m : Text)
      → has_member z m ≡ false
      → All (λ t. t ≤ s) (scores z)
      → scores (zadd z s m) ≡ scores z ++ s ∷ []
  -- ZRANGE 0 0 WITHSCORES
  pub first_score-scores : (z : ZSet) → first_score z ≡ head? (scores z)

abbrev pub score_or : Option ℕ → ℕ → ℕ
score_or none now = now
score_or (some s) now = s

keep_all : (now : ℕ) (ts : List ℕ) → ltb now window_ms ≡ true → ts ≡ filter (is_recent now) ts
keep_all now [] h = refl
keep_all now (t ∷ ts) h = ground (arith, keep_all now ts h)

keep_recent :
    (now : ℕ) (ts : List ℕ)
    → ltb now window_ms ≡ false
    → filter (outside 0 (now - window_ms)) ts ≡ filter (is_recent now) ts
keep_recent now [] h = refl
keep_recent now (t ∷ ts) h = ground (arith, keep_recent now ts h)

score_or-head? : (ts : List ℕ) (now : ℕ) → score_or (head? ts) now ≡ oldest ts now
score_or-head? [] now = refl
score_or-head? (t ∷ ts) now = refl

module _ (redis : SortedSets) where
  open redis use {
    ZSet, scores, has_member, zremrangebyscore, zcard, zadd, first_score, scores-zremrangebyscore,
    has_member-zremrangebyscore, zcard-scores, scores-zadd, first_score-scores,
  }

  -- `now - window` below zero takes nothing out, since no score is negative.
  abbrev pub drop_old : ZSet → ℕ → ZSet
  drop_old z now = if ltb now window_ms then z else zremrangebyscore z 0 (now - window_ms)

  -- The script: allowed, count, the oldest score, and the set that is left.
  unfoldable pub sliding_window : ZSet → ℕ → ℕ → Text → Bool × ℕ × ℕ × ZSet
  sliding_window z now limit member =
      let z1 = drop_old z now in
      let count = zcard z1 in
      if ltb count limit
      then (true, count + 1, score_or (first_score (zadd z1 now member)) now, zadd z1 now member)
      else (false, count, score_or (first_score z1) now, z1)

  unfoldable pub check_redis : ℕ → ℕ → Text → ZSet → RateLimitResult × ZSet
  unfolding sliding_window
  check_redis limit now member z =
      let (allowed, count, oldest_score, z') = sliding_window z now limit member in
      (build_result allowed count limit oldest_score now false, z')

  drop_old-scores :
      (z : ZSet) (now : ℕ) → scores (drop_old z now) ≡ filter (is_recent now) (scores z)
  drop_old-scores z now = elim (Bool-cases (ltb now window_ms)) [
    | inl early ↦ rw early (keep_all now (scores z) early)
    | inr late ↦
        rw late (scores-zremrangebyscore z 0 (now - window_ms) ∙ keep_recent now (scores z) late)
  ]

  drop_old-fresh :
      (z : ZSet) (now : ℕ) (m : Text)
      → has_member z m ≡ false
      → has_member (drop_old z now) m ≡ false
  drop_old-fresh z now m h = elim (Bool-cases (ltb now window_ms)) [
    | inl early ↦ rw early h
    | inr late ↦ rw late (has_member-zremrangebyscore z 0 (now - window_ms) m h)
  ]

  module _ (limit now : ℕ) (member : Text) (z : ZSet) (fresh : has_member z member ≡ false)
      (le : All (λ t. t ≤ now) (scores z)) where
    kept : List ℕ
    kept = filter (is_recent now) (scores z)

    count_kept : zcard (drop_old z now) ≡ length kept
    unfolding kept
    count_kept = zcard-scores (drop_old z now) ∙ ap length (drop_old-scores z now)

    scores_kept : scores (drop_old z now) ≡ kept
    unfolding kept
    scores_kept = drop_old-scores z now

    scores_pushed : scores (zadd (drop_old z now) now member) ≡ kept ++ now ∷ []
    unfolding kept
    scores_pushed =
        scores-zadd (drop_old z now) now member (drop_old-fresh z now member fresh)
          (rw (drop_old-scores z now) (All-filter (λ t. t ≤ now) (is_recent now) (scores z) le))
        ∙ ap (λ ts. ts ++ now ∷ []) (drop_old-scores z now)

    first_pushed :
        score_or (first_score (zadd (drop_old z now) now member)) now
        ≡ oldest (kept ++ now ∷ []) now
    first_pushed =
        rw (first_score-scores (zadd (drop_old z now) now member), scores_pushed)
          (score_or-head? (kept ++ now ∷ []) now)

    first_kept : score_or (first_score (drop_old z now)) now ≡ oldest kept now
    first_kept = rw (first_score-scores (drop_old z now), scores_kept) (score_or-head? kept now)

    script_accepts :
        ltb (length kept) limit ≡ true
        → sliding_window z now limit member
          ≡ (true, length kept + 1, oldest (kept ++ now ∷ []) now, zadd (drop_old z now) now member)
    unfolding sliding_window
    script_accepts few = ground (arith, count_kept, first_pushed)

    script_rejects :
        ltb (length kept) limit ≡ false
        → sliding_window z now limit member ≡ (false, length kept, oldest kept now, drop_old z now)
    unfolding sliding_window
    script_rejects many = ground (arith, count_kept, first_kept)

    -- The script on a set that holds no time after now and not the new member yet decides as the window
    -- in memory does on the same times: the results are equal but for the mark of the degraded mode,
    -- and the times kept are the same.
    pub check_redis-eq-check_timestamps :
        let (r, z') = check_redis limit now member z in
        let (q, ts') = check_timestamps limit now (scores z) in
        (r ≡ record q { degraded = false }) × (scores z' ≡ ts')
    unfolding check_redis check_timestamps build_result kept
    check_redis-eq-check_timestamps = elim (Bool-cases (ltb (length kept) limit)) [
      | inl few ↦ rw (script_accepts few, few, check_timestamps) (refl, scores_pushed)
      | inr many ↦ rw (script_rejects many, many, check_timestamps) (refl, scores_kept)
    ]
