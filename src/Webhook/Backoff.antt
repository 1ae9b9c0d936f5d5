-- ===== src/Webhook/Backoff.antt =====
-- The delays between the attempts of one delivery.
use native.Mathlib.Nat.{le-div_iff_mul-le}
use orbit_stream_backend.Common.{
  ℕ, zero, suc, ◌+◌, ◌*◌, ◌≤◌, ◌<◌, ◌≡◌, ◌==◌, if◌then◌else◌, refl, arith,
}
use orbit_stream_backend.Webhook.Constants.{Random, base_backoff_ms, apply_jitter, backoff_delay_ms}

-- The numerator lies below the denominator.
abbrev pub IsRandom : Random → Type 0
IsRandom r = r.numerator < r.denominator

lt_le_absurd : (a b : ℕ) → a < b → b ≤ a → ⊥
lt_le_absurd a b h k = omega arith

le_of_lt_suc : (a b : ℕ) → a < b + 1 → a ≤ b
le_of_lt_suc a b h = omega arith

not_le→lt : (a b : ℕ) → (b ≤ a → ⊥) → a < b
not_le→lt a b h = grind arith

-- The numerator of the greatest delay stays below the next multiple of the denominator.
below_next : (u p q : ℕ) → p < q → 2 * (5 * u) * (4 * q + 2 * p) + 5 * q < (6 * u + 1) * (10 * q)
below_next u p q h = grind arith

scaled_lt : (u p q : ℕ) → p < q → u * p ≤ u * q
scaled_lt u p q h = grind arith

-- A base interval that is a multiple of 5 ms is moved by a fifth of itself at most.
pub apply_jitter-bounds :
    (unit : ℕ) (rand : Random)
    → IsRandom rand
    → (4 * unit ≤ apply_jitter (5 * unit) rand) × (apply_jitter (5 * unit) rand ≤ 6 * unit)
unfolding apply_jitter
apply_jitter-bounds unit rand h =
    let x = 2 * (5 * unit) * (4 * rand.denominator + 2 * rand.numerator) + 5 * rand.denominator in
    let k = 10 * rand.denominator in
    let pos : 0 < k = omega arith in
    let top = scaled_lt unit rand.numerator rand.denominator h in
    (
      (le-div_iff_mul-le pos).1 (omega arith),
      le_of_lt_suc _ _ (
          not_le→lt _ _ (λ h'.
            lt_le_absurd _ _ (below_next unit rand.numerator rand.denominator h)
              ((le-div_iff_mul-le pos).0 h'))),
    )

pub delay_bounds :
    (attempt unit : ℕ) (rand : Random)
    → IsRandom rand
    → base_backoff_ms attempt ≡ 5 * unit
    → (4 * unit ≤ backoff_delay_ms attempt rand) × (backoff_delay_ms attempt rand ≤ 6 * unit)
unfolding backoff_delay_ms
delay_bounds attempt unit rand h e = rw e (apply_jitter-bounds unit rand h)

-- Two bases of which one is more than half as large again as the other.
delays_apart :
    (a b u v : ℕ) (r s : Random)
    → IsRandom r
    → IsRandom s
    → base_backoff_ms a ≡ 5 * u
    → base_backoff_ms b ≡ 5 * v
    → 6 * u < 4 * v
    → backoff_delay_ms a r < backoff_delay_ms b s
delays_apart a b u v r s hr hs ea eb gap =
    omega (arith, delay_bounds a u r hr ea, delay_bounds b v s hs eb)

-- Whatever the jitter is, each of the five delays of the schedule is longer than the one before.
pub backoff_delay_ms-increases :
    (attempt : ℕ) (r s : Random)
    → IsRandom r
    → IsRandom s
    → 1 ≤ attempt
    → attempt < 5
    → backoff_delay_ms attempt r < backoff_delay_ms (suc attempt) s
unfolding base_backoff_ms
backoff_delay_ms-increases zero r s hr hs lo hi = absurd (omega arith)
backoff_delay_ms-increases (suc zero) r s hr hs lo hi =
    delays_apart 1 2 12_000 60_000 r s hr hs refl refl (omega arith)
backoff_delay_ms-increases (suc (suc zero)) r s hr hs lo hi =
    delays_apart 2 3 60_000 360_000 r s hr hs refl refl (omega arith)
backoff_delay_ms-increases (suc (suc (suc zero))) r s hr hs lo hi =
    delays_apart 3 4 360_000 1_440_000 r s hr hs refl refl (omega arith)
backoff_delay_ms-increases (suc (suc (suc (suc zero)))) r s hr hs lo hi =
    delays_apart 4 5 1_440_000 8_640_000 r s hr hs refl refl (omega arith)
backoff_delay_ms-increases (suc (suc (suc (suc (suc n))))) r s hr hs lo hi = absurd (omega arith)

-- The schedule: how many minutes pass after the first, second, third and fourth failed attempt.
abbrev pub minutes_after : ℕ → ℕ
minutes_after n =
    if n == 1 then 1 else if n == 2 then 5 else if n == 3 then 30 else if n == 4 then 120 else 0

-- The delay is the scheduled one, moved by a fifth at most.
abbrev pub IsDelay : ℕ → ℕ → Type 0
IsDelay failures delay =
    (48_000 * minutes_after failures ≤ delay) × (delay ≤ 72_000 * minutes_after failures)

pub backoff_delay_ms-IsDelay :
    (attempt : ℕ) (rand : Random)
    → IsRandom rand
    → suc attempt < 5
    → IsDelay (suc attempt) (backoff_delay_ms (suc attempt) rand)
unfolding base_backoff_ms
backoff_delay_ms-IsDelay zero rand h lt = delay_bounds 1 12_000 rand h refl
backoff_delay_ms-IsDelay (suc zero) rand h lt = delay_bounds 2 60_000 rand h refl
backoff_delay_ms-IsDelay (suc (suc zero)) rand h lt = delay_bounds 3 360_000 rand h refl
backoff_delay_ms-IsDelay (suc (suc (suc zero))) rand h lt = delay_bounds 4 1_440_000 rand h refl
backoff_delay_ms-IsDelay (suc (suc (suc (suc n)))) rand h lt = absurd (omega arith)
