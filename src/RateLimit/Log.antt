-- ===== src/RateLimit/Log.antt =====
-- The window in memory against a log that forgets nothing: the same decisions, and never more than the
-- limit in any minute.
use orbit_stream_backend.Common.{
  ℕ, ◌+◌, ◌≤◌, ◌<◌, ◌≡◌, refl, ap, ◌∙◌, Bool, true, false, ◌&&◌, List, [], ◌∷◌, ◌++◌, if◌then◌else◌,
  ltb, leb, filter, length, count_if, count_if-append, arith, inl, inr, Bool-cases, ltb→lt,
  append-nil, append_assoc,
}
use orbit_stream_backend.RateLimit.Window.{window_ms, is_recent, check_timestamps}

-- The times of the requests that are let through, when requests for one key come at the given times.
unfoldable pub admit : ℕ → List ℕ → List ℕ → List ℕ
admit limit timestamps [] = []
admit limit timestamps (now ∷ times) =
    let rest = admit limit (check_timestamps limit now timestamps).1 times in
    if (check_timestamps limit now timestamps).0.allowed then now ∷ rest else rest

-- The same by a log of all requests let through so far: one is let through if fewer than `limit` of
-- the logged ones lie less than a minute back.
unfoldable pub admit_by_log : ℕ → List ℕ → List ℕ → List ℕ
admit_by_log limit log [] = []
admit_by_log limit log (now ∷ times) =
    let accepted = now ∷ admit_by_log limit (log ++ now ∷ []) times in
    let rejected = admit_by_log limit log times in
    if ltb (count_if (is_recent now) log) limit then accepted else rejected

-- The times do not fall, from a given one on.
abbrev pub IsSortedFrom : ℕ → List ℕ → Type 0
IsSortedFrom t [] = Unit
IsSortedFrom t (u ∷ us) = (t ≤ u) × IsSortedFrom u us

-- From now on both lists hold as many recent times.
abbrev Agrees : ℕ → List ℕ → List ℕ → Type 0
Agrees now ts log = (n : ℕ) → now ≤ n → count_if (is_recent n) ts ≡ count_if (is_recent n) log

length-filter : (p : ℕ → Bool) (xs : List ℕ) → length (filter p xs) ≡ count_if p xs
length-filter p [] = refl
length-filter p (x ∷ xs) = ground (arith, length-filter p xs)

-- What is dropped now is not recent later either.
count_if-filter :
    (now n : ℕ) (ts : List ℕ)
    → now ≤ n
    → count_if (is_recent n) (filter (is_recent now) ts) ≡ count_if (is_recent n) ts
count_if-filter now n [] h = refl
count_if-filter now n (t ∷ ts) h = ground (arith, count_if-filter now n ts h)

check_timestamps-accepts :
    (limit now : ℕ) (ts : List ℕ)
    → ltb (count_if (is_recent now) ts) limit ≡ true
    → ((check_timestamps limit now ts).0.allowed ≡ true)
      × ((check_timestamps limit now ts).1 ≡ filter (is_recent now) ts ++ now ∷ [])
unfolding check_timestamps
check_timestamps-accepts limit now ts h = ground (arith, length-filter (is_recent now) ts)

check_timestamps-rejects :
    (limit now : ℕ) (ts : List ℕ)
    → ltb (count_if (is_recent now) ts) limit ≡ false
    → ((check_timestamps limit now ts).0.allowed ≡ false)
      × ((check_timestamps limit now ts).1 ≡ filter (is_recent now) ts)
unfolding check_timestamps
check_timestamps-rejects limit now ts h = ground (arith, length-filter (is_recent now) ts)

Agrees-kept :
    (last now : ℕ) (ts log : List ℕ)
    → last ≤ now
    → Agrees last ts log
    → Agrees now (filter (is_recent now) ts) log
Agrees-kept last now ts log le agree n h = count_if-filter now n ts h ∙ agree n (omega arith)

Agrees-pushed :
    (now : ℕ) (ts log : List ℕ) → Agrees now ts log → Agrees now (ts ++ now ∷ []) (log ++ now ∷ [])
Agrees-pushed now ts log agree n h = omega (
  arith,
  agree n h,
  count_if-append (is_recent n) ts (now ∷ []),
  count_if-append (is_recent n) log (now ∷ []),
)

admit-log :
    (limit last : ℕ) (ts log times : List ℕ)
    → Agrees last ts log
    → IsSortedFrom last times
    → admit limit ts times ≡ admit_by_log limit log times
unfolding admit admit_by_log
admit-log limit last ts log [] agree h = refl
admit-log limit last ts log (now ∷ times) agree (le, h) =
    elim (Bool-cases (ltb (count_if (is_recent now) log) limit)) [
      | inl few ↦
          let (allowed, pushed) = check_timestamps-accepts limit now ts (rw (agree now le) few) in
          rw (few, allowed, pushed)
            (ap (◌∷◌ now) (
              admit-log limit now (filter (is_recent now) ts ++ now ∷ []) (log ++ now ∷ []) times
                (Agrees-pushed now (filter (is_recent now) ts) log
                  (Agrees-kept last now ts log le agree))
                h))
      | inr many ↦
          let (denied, kept) = check_timestamps-rejects limit now ts (rw (agree now le) many) in
          rw (many, denied, kept)
            (admit-log limit now (filter (is_recent now) ts) log times
              (Agrees-kept last now ts log le agree) h)
    ]

-- For requests that come in order, the pruned timestamps in memory let the same ones through as the
-- log that forgets nothing.
pub admit-eq-admit_by_log :
    (limit : ℕ) (times : List ℕ)
    → IsSortedFrom 0 times
    → admit limit [] times ≡ admit_by_log limit [] times
admit-eq-admit_by_log limit times h = admit-log limit 0 [] [] times (λ n le. refl) h

-- A minute from x on.
abbrev pub in_minute : ℕ → ℕ → Bool
in_minute x t = leb x t && ltb t (x + window_ms)

minute-le-recent :
    (x now : ℕ) (log : List ℕ)
    → in_minute x now ≡ true
    → count_if (in_minute x) log ≤ count_if (is_recent now) log
minute-le-recent x now [] h = omega arith
minute-le-recent x now (t ∷ log) h = ground (arith, minute-le-recent x now log h)

abbrev IsWithin : ℕ → List ℕ → Type 0
IsWithin limit log = (x : ℕ) → count_if (in_minute x) log ≤ limit

IsWithin-pushed :
    (limit now : ℕ) (log : List ℕ)
    → count_if (is_recent now) log < limit
    → IsWithin limit log
    → IsWithin limit (log ++ now ∷ [])
IsWithin-pushed limit now log few h x =
    ground (arith, h x, minute-le-recent x now log, count_if-append (in_minute x) log (now ∷ []))

admit_by_log-IsWithin :
    (limit : ℕ) (log times : List ℕ)
    → IsWithin limit log
    → IsWithin limit (log ++ admit_by_log limit log times)
unfolding admit_by_log
admit_by_log-IsWithin limit log [] h = rw append-nil h
admit_by_log-IsWithin limit log (now ∷ times) h =
    elim (Bool-cases (ltb (count_if (is_recent now) log) limit)) [
      | inl few ↦ rw few (
          rw (append_assoc log (now ∷ []) (admit_by_log limit (log ++ now ∷ []) times)) at (
            admit_by_log-IsWithin limit (log ++ now ∷ []) times
              (IsWithin-pushed limit now log (ltb→lt _ _ few) h)))
      | inr many ↦ rw many (admit_by_log-IsWithin limit log times h)
    ]

-- Of requests for one key that come in order, the window in memory lets at most `limit` through in
-- any minute, wherever the minute begins.
pub admit-bound :
    (limit : ℕ) (times : List ℕ) (x : ℕ)
    → IsSortedFrom 0 times
    → count_if (in_minute x) (admit limit [] times) ≤ limit
admit-bound limit times x h =
    rw (admit-eq-admit_by_log limit times h)
      (admit_by_log-IsWithin limit [] times (λ y. omega arith) x)
