-- ===== src/Webhook/Tests/Sets.antt =====
-- Sorted sets in memory: an instance of the commands of Redis.
use orbit_stream_backend.Common.{
  ℕ, ◌≤◌, ◌==◌, ==_iff, ◌≡◌, refl, subst, ap, inl, inr, Bool, true, false, not, ◌&&◌, List, [], ◌∷◌,
  filter, Option, none, some, if◌then◌else◌, leb, arith, Bool-cases,
}
use orbit_stream_backend.Webhook.Job.{put}
use orbit_stream_backend.Webhook.Zsets.{Zsets}
use orbit_stream_backend.Webhook.Worker.{has, without}

-- The members, a new one first, and the score that a number has as a member.
pub record Members : Type 0 where
  pub ids : List ℕ
  pub score : ℕ → ℕ

abbrev pub some_if : Bool → ℕ → Option ℕ
some_if true s = some s
some_if false s = none

abbrev pub score_of : Members → ℕ → Option ℕ
score_of z n = some_if (has z.ids n) (z.score n)

abbrev pub least_from : (ℕ → ℕ) → ℕ → List ℕ → ℕ
least_from f b [] = b
least_from f b (k ∷ ks) = least_from f (if leb (f b) (f k) then b else k) ks

abbrev pub least : (ℕ → ℕ) → List ℕ → Option ℕ
least f [] = none
least f (m ∷ ms) = some (least_from f m ms)

has-without : (xs : List ℕ) (m n : ℕ) → has (without xs m) n ≡ not (m == n) && has xs n
has-without [] m n = ground arith
has-without (x ∷ xs) m n = ground (arith, has-without xs m n)

pub score_of-zrem :
    (z : Members) (m n : ℕ)
    → score_of (record z { ids = without z.ids m }) n ≡ (if m == n then none else score_of z n)
score_of-zrem z m n =
    rw (has-without z.ids m n)
      (elim (Bool-cases (m == n)) [ inl b ↦ rw b refl | inr b ↦ rw b refl ])

pub score_of-zadd :
    (z : Members) (s m n : ℕ)
    → score_of (record { ids = m ∷ z.ids; score = put z.score m s }) n
      ≡ (if m == n then some s else score_of z n)
score_of-zadd z s m n = elim (Bool-cases (m == n)) [ inl b ↦ rw b refl | inr b ↦ rw b refl ]

-- Among the numbers, and of the least score of them.
abbrev IsBest : (ℕ → ℕ) → List ℕ → ℕ → Type 0
IsBest f ms r = (has ms r ≡ true) × ((n : ℕ) → has ms n ≡ true → f r ≤ f n)

best_one : (f : ℕ → ℕ) (b n : ℕ) → has (b ∷ []) n ≡ true → f b ≤ f n
best_one f b n h = omega (arith, ap f ((==_iff b n).0 (ground (arith, h))))

-- One more number of no lesser score, next to the head or in its place.
more_after :
    (f : ℕ → ℕ) (b k r : ℕ) (ks : List ℕ)
    → f b ≤ f k
    → IsBest f (b ∷ ks) r
    → IsBest f (b ∷ k ∷ ks) r
more_after f b k r ks le (there, low) = (
  ground (arith, there),
  λ n h. elim (Bool-cases (k == n)) [
    | inl e ↦ omega (arith, low b (ground arith), le, ap f ((==_iff k n).0 e))
    | inr e ↦ low n (ground (arith, h, e))
  ],
)

more_before :
    (f : ℕ → ℕ) (b k r : ℕ) (ks : List ℕ)
    → f k ≤ f b
    → IsBest f (k ∷ ks) r
    → IsBest f (b ∷ k ∷ ks) r
more_before f b k r ks le (there, low) = (
  ground (arith, there),
  λ n h. elim (Bool-cases (b == n)) [
    | inl e ↦ omega (arith, low k (ground arith), le, ap f ((==_iff b n).0 e))
    | inr e ↦ low n (ground (arith, h, e))
  ],
)

IsBest-step :
    (f : ℕ → ℕ) (b k : ℕ) (ks : List ℕ) (c : Bool)
    → leb (f b) (f k) ≡ c
    → IsBest f (b ∷ ks) (least_from f b ks)
    → IsBest f (k ∷ ks) (least_from f k ks)
    → IsBest f (b ∷ k ∷ ks) (least_from f (if c then b else k) ks)
IsBest-step f b k ks true e h h' = more_after f b k _ ks (ground (arith, e)) h
IsBest-step f b k ks false e h h' = more_before f b k _ ks (ground (arith, e)) h'

least_from-IsBest : (f : ℕ → ℕ) (b : ℕ) (ks : List ℕ) → IsBest f (b ∷ ks) (least_from f b ks)
least_from-IsBest f b [] = (ground arith, best_one f b)
least_from-IsBest f b (k ∷ ks) =
    IsBest-step f b k ks (leb (f b) (f k)) refl (least_from-IsBest f b ks)
      (least_from-IsBest f k ks)

least_lem : (z : Members) (m : ℕ) → least z.score z.ids ≡ some m → IsBest z.score z.ids m
least_lem z m e = go z.ids e
  where
    go : (ms : List ℕ) → least z.score ms ≡ some m → IsBest z.score ms m
    go [] e = absurd (ground (arith, e))
    go (b ∷ ks) e =
        subst (IsBest z.score (b ∷ ks)) (ground (arith, e)) (least_from-IsBest z.score b ks)

score_member :
    (z : Members) (n t : ℕ) → score_of z n ≡ some t → (has z.ids n ≡ true) × (z.score n ≡ t)
score_member z n t e = go (has z.ids n) e
  where
    go : (b : Bool) → some_if b (z.score n) ≡ some t → (b ≡ true) × (z.score n ≡ t)
    go true e = (refl, ground (arith, e))
    go false e = absurd (ground (arith, e))

pub least_law :
    (z : Members) (m : ℕ)
    → least z.score z.ids ≡ some m
    → (s : ℕ) × (score_of z m ≡ some s) × ((n t : ℕ) → score_of z n ≡ some t → s ≤ t)
least_law z m e =
    let (there, low) = least_lem z m e in
    (
      z.score m,
      rw there refl,
      λ n t h. let (k, v) = score_member z n t h in omega (arith, low n k, v),
    )

abbrev pub sets : Zsets
sets = record {
  ZSet = Members;
  zscore = score_of;
  zadd = λ z s m. record { ids = m ∷ z.ids; score = put z.score m s };
  zrem = λ z m. record z { ids = without z.ids m };
  zrangebyscore = λ z now. filter (λ m. leb (z.score m) now) z.ids;
  zrange_head = λ z. least z.score z.ids;
  zscore-zadd = score_of-zadd;
  zscore-zrem = score_of-zrem;
  zrange_head-least = least_law;
}

abbrev pub no_members : Members
no_members = record { ids = []; score = λ n. 0 }
