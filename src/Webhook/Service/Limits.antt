-- ===== src/Webhook/Service/Limits.antt =====
-- The limit that the controller takes from a query.
use native.Mathlib.Nat.{div-lt_iff_lt-mul}
use orbit_stream_backend.Common.{
  ℕ, suc, ◌/◌, ◌==◌, ◌≤◌, ◌<◌, ◌≡◌, ◌↔◌, min, true, false, inl, inr, arith, Bool-cases,
}
use orbit_stream_backend.Webhook.Service.{JsNumber, not_a_number, infinite, finite, clamp_limit}

-- A number strictly between 0 and 1.
abbrev pub IsFraction : JsNumber → Type 0
IsFraction not_a_number = ⊥
IsFraction (infinite is_negative) = ⊥
IsFraction (finite true n d) = ⊥
IsFraction (finite false n d) = (0 < n) × (n < suc d)

floor_zero : (n d : ℕ) → (n / suc d ≡ 0) ↔ (n < suc d)
floor_zero n d =
    let (to, from) = div-lt_iff_lt-mul {k = suc d} {x = n} {y = 1} (omega arith) in
    (λ e. ground (arith, to (ground (arith, e))), λ l. ground (arith, from (ground (arith, l))))

min_zero : (x : ℕ) → (min x 100 ≡ 0) ↔ (x ≡ 0)
min_zero x = (λ e. omega (arith, e), λ e. omega (arith, e))

-- The limit is never above 100, and it is 0 exactly for a number strictly between 0 and 1.
pub clamp_limit-bound :
    (n : JsNumber) → (clamp_limit n ≤ 100) × ((clamp_limit n ≡ 0) ↔ IsFraction n)
unfolding clamp_limit
clamp_limit-bound not_a_number = (omega arith, (λ e. ground (arith, e), λ f. absurd f))
clamp_limit-bound (infinite is_negative) = (omega arith, (λ e. ground (arith, e), λ f. absurd f))
clamp_limit-bound (finite true n d) = (omega arith, (λ e. ground (arith, e), λ f. absurd f))
clamp_limit-bound (finite false n d) = elim (Bool-cases (n == 0)) [
  | inl b ↦ rw b (omega arith, (λ e. ground (arith, e), λ (p, q). ground (arith, b, p)))
  | inr b ↦ rw b (
    omega arith,
    (
      λ e. (ground (arith, b), (floor_zero n d).0 ((min_zero (n / suc d)).0 e)),
      λ (p, q). (min_zero (n / suc d)).1 ((floor_zero n d).1 q),
    ),
  )
]
