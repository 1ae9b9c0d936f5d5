-- ===== src/RateLimit/Tests.antt =====
-- Runs of the rate limiter, over sorted sets kept as lists.
use orbit_stream_backend.Common.{
  ℕ, ◌≤◌, ◌≡◌, refl, Bool, true, false, List, [], ◌∷◌, ◌++◌, none, map, filter, any, length, head?,
  arith, count_if, ap,
}
use orbit_stream_backend.Common.Text.{Text, codes, text_eq}
use orbit_stream_backend.RateLimit.Rules.{
  Request, missing, single, resolve_rule, is_exempt, create_rule, get_rule, default_rule,
}
use orbit_stream_backend.RateLimit.Window.{check_timestamps}
use orbit_stream_backend.RateLimit.Log.{admit, admit-bound, in_minute}
use orbit_stream_backend.RateLimit.Script.{
  SortedSets, outside, check_redis, check_redis-eq-check_timestamps,
}
use orbit_stream_backend.RateLimit.Middleware.{Limiter, limit_request, runs, too_many_requests}
use orbit_stream_backend.RateLimit.Retry.{retry_after_suffices}

abbrev Entries : Type 0
Entries = List (ℕ × Text)

abbrev entry_scores : Entries → List ℕ
entry_scores = map (λ e. e.0)

abbrev is_member : Text → ℕ × Text → Bool
is_member m e = text_eq e.1 m

abbrev score_outside : ℕ → ℕ → ℕ × Text → Bool
score_outside lo hi e = outside lo hi e.0

filter_scores :
    (z : Entries) (lo hi : ℕ)
    → entry_scores (filter (score_outside lo hi) z) ≡ filter (outside lo hi) (entry_scores z)
filter_scores [] lo hi = refl
filter_scores (e ∷ z) lo hi = ground (arith, filter_scores z lo hi)

filter_members :
    (z : Entries) (lo hi : ℕ) (m : Text)
    → any (is_member m) z ≡ false
    → any (is_member m) (filter (score_outside lo hi) z) ≡ false
filter_members [] lo hi m h = h
filter_members (e ∷ z) lo hi m h = ground (arith, filter_members z lo hi m)

length_scores : (z : Entries) → length z ≡ length (entry_scores z)
length_scores [] = refl
length_scores (e ∷ z) = ground (arith, length_scores z)

push_scores :
    (z : Entries) (s : ℕ) (m : Text) → entry_scores (z ++ (s, m) ∷ []) ≡ entry_scores z ++ s ∷ []
push_scores [] s m = refl
push_scores (e ∷ z) s m = ap (◌∷◌ e.0) (push_scores z s m)

-- New entries come with the greatest score, so that the end of the list is their place.
abbrev list_sets : SortedSets
list_sets = record {
  ZSet = Entries;
  scores = entry_scores;
  has_member = λ z m. any (is_member m) z;
  zremrangebyscore = λ z lo hi. filter (score_outside lo hi) z;
  zcard = λ z. length z;
  zadd = λ z s m. z ++ (s, m) ∷ [];
  first_score = λ z. head? (entry_scores z);
  scores-zremrangebyscore = filter_scores;
  has_member-zremrangebyscore = filter_members;
  zcard-scores = length_scores;
  scores-zadd = λ z s m fresh le. push_scores z s m;
  first_score-scores = λ z. refl;
}

session_rule : resolve_rule (codes "get") (codes "/v1/checkout/sessions/abc/") ≡ get_rule
unfolding resolve_rule
session_rule = refl

creation_rule : resolve_rule (codes "POST") (codes "/v1/checkout/sessions") ≡ create_rule
unfolding resolve_rule
creation_rule = refl

deeper_path_rule :
    resolve_rule (codes "GET") (codes "/v1/checkout/sessions/abc/payment") ≡ default_rule
unfolding resolve_rule
deeper_path_rule = refl

exempt_paths : (is_exempt (codes "/health/live") ≡ true) × (is_exempt (codes "/healthz") ≡ false)
unfolding is_exempt
exempt_paths = (refl, refl)

abbrev times : List ℕ
times = 1_000 ∷ 2_000 ∷ 3_000 ∷ 61_500 ∷ []

third_refused : admit 2 [] times ≡ 1_000 ∷ 2_000 ∷ 61_500 ∷ []
unfolding admit check_timestamps
third_refused = refl

admit-bound_example : count_if (in_minute 1_000) (admit 2 [] times) ≤ 2
admit-bound_example = admit-bound 2 times 1_000 (omega arith)

abbrev two_entries : Entries
two_entries = (1_000, codes "1000:a") ∷ (2_000, codes "2000:b") ∷ []

check_redis-eq-check_timestamps_example :
    let (r, z') = check_redis list_sets 2 61_500 (codes "61500:c") two_entries in
    let (q, ts') = check_timestamps 2 61_500 (1_000 ∷ 2_000 ∷ []) in
    (r ≡ record q { degraded = false }) × (entry_scores z' ≡ ts')
check_redis-eq-check_timestamps_example =
    check_redis-eq-check_timestamps list_sets 2 61_500 (codes "61500:c") two_entries refl
      (omega arith)

refused_now : (check_timestamps 2 3_000 (1_000 ∷ 2_000 ∷ [])).0.retry_after_seconds ≡ 58
unfolding check_timestamps
refused_now = refl

retry_after_suffices_example :
    (check_timestamps 2 61_000 (check_timestamps 2 3_000 (1_000 ∷ 2_000 ∷ [])).1).0.allowed ≡ true
unfolding check_timestamps
retry_after_suffices_example =
    retry_after_suffices 2 3_000 61_000 (1_000 ∷ 2_000 ∷ []) (omega arith) (omega arith) refl
      (omega arith)

abbrev verify_request : Request
verify_request = record {
  method = codes "POST";
  path = codes "/merchants/register";
  forwarded_for = single (codes "10.1.1.1, 172.0.0.1");
  authorization = missing;
  ip = none;
  remote_address = none;
}

abbrev busy : Limiter list_sets
busy = record {
  memory = λ k. [];
  sets = λ k. (4_000, codes "4000:a") ∷ (5_000, codes "5000:b") ∷ (6_000, codes "6000:c") ∷ [];
  last_degraded_warn = 0;
}

fourth_registration :
    (limit_request list_sets 7_000 (codes "7000:d") runs verify_request busy).0
    ≡ too_many_requests 3 0 64 57
unfolding limit_request is_exempt
fourth_registration = refl
