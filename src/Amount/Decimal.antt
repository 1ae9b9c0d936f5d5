-- ===== src/Amount/Decimal.antt =====
-- What parseAmountToBigInt makes of a plain decimal text: digits, with or without a point and
-- more digits.
use orbit_stream_backend.Common.{
  ℕ, zero, suc, ◌+◌, ◌-◌, ◌*◌, ◌^◌, ◌≤◌, ◌≡◌, ◌≢◌, refl, ap, ◌∙◌, true, false, [], ◌∷◌, ◌++◌,
  reverse, some, arith, length, length-append, length-replicate, take, replicate, All, All-append,
  append-nil, append_assoc,
}
use mathlib.Core.Path.{◌≡⟨◌⟩◌, ◌∎}
use mathlib.Core.List.{reverse-reverse, reverse-cons}
use native.Mathlib.Nat.{pow-suc, add-zero, add-suc}
use orbit_stream_backend.Common.Int.{pos}
use orbit_stream_backend.Common.Text.{Text, is_space, trim, trim_start, split_from}
use orbit_stream_backend.Amount.{is_digit, digits_from, integer_literal, pad_end}

-- Only the characters 0 to 9.
abbrev pub IsDigits : Text → Type 0
IsDigits = All (λ c. is_digit c ≡ true)

-- The number that a text of digits denotes in base ten, after what stands left of it.
abbrev pub decimal_from : ℕ → Text → ℕ
decimal_from acc [] = acc
decimal_from acc (c ∷ s) = decimal_from (acc * 10 + (c - b'0')) s

abbrev pub decimal : Text → ℕ
decimal s = decimal_from 0 s

pub decimal_from-append :
    (acc : ℕ) (s t : Text) → decimal_from acc (s ++ t) ≡ decimal_from (decimal_from acc s) t
decimal_from-append acc [] t = refl
decimal_from-append acc (c ∷ s) t = decimal_from-append (acc * 10 + (c - b'0')) s t

pub decimal_from-shift :
    (acc : ℕ) (s : Text) → decimal_from acc s ≡ acc * 10 ^ length s + decimal_from 0 s
decimal_from-shift acc [] = omega arith
decimal_from-shift acc (c ∷ s) =
    rw
      (decimal_from-shift (acc * 10 + (c - b'0')) s, decimal_from-shift (0 + (c - b'0')) s, pow-suc)
      (omega arith)

pub digits_from-IsDigits :
    (acc : ℕ) (s : Text) → IsDigits s → digits_from 10 acc s ≡ some (decimal_from acc s)
unfolding digits_from
digits_from-IsDigits acc [] h = refl
digits_from-IsDigits acc (c ∷ s) (p, h) =
    ground (arith, digits_from-IsDigits (acc * 10 + (c - b'0')) s h)

-- A text of digits is taken as a decimal literal.
pub integer_literal-IsDigits :
    (s : Text) → IsDigits s → s ≢ [] → integer_literal s ≡ some (pos (decimal s))
integer_literal-IsDigits [] h ne = absurd (ne refl)
integer_literal-IsDigits (c ∷ []) h ne = ground (arith, digits_from-IsDigits 0 (c ∷ []) h)
integer_literal-IsDigits (c ∷ x ∷ s) h ne = ground (arith, digits_from-IsDigits 0 (c ∷ x ∷ s) h)

pub solid_digit : (c : ℕ) → is_digit c ≡ true → is_space c ≡ false
solid_digit c h = ground arith

-- No white space anywhere.
abbrev pub IsSolid : Text → Type 0
IsSolid = All (λ c. is_space c ≡ false)

pub IsSolid-digits : (s : Text) → IsDigits s → IsSolid s
IsSolid-digits [] h = tt
IsSolid-digits (c ∷ s) (p, h) = (solid_digit c p, IsSolid-digits s h)

trim_start-IsSolid : (s : Text) → IsSolid s → trim_start s ≡ s
unfolding trim_start
trim_start-IsSolid [] h = refl
trim_start-IsSolid (c ∷ s) (p, h) = ground arith

IsSolid-reverse : (s : Text) → IsSolid s → IsSolid (reverse s)
IsSolid-reverse [] h = tt
IsSolid-reverse (c ∷ s) (p, h) =
    rw (reverse-cons c s) (All-append _ (reverse s) (c ∷ []) (IsSolid-reverse s h) (p, tt))

pub trim-IsSolid : (s : Text) → IsSolid s → trim s ≡ s
unfolding trim
trim-IsSolid s h =
    rw (trim_start-IsSolid s h, trim_start-IsSolid (reverse s) (IsSolid-reverse s h))
      (reverse-reverse s)

-- Splitting at the point.
pub split_from-digits : (cur s : Text) → IsDigits s → split_from b'.' cur s ≡ (cur ++ s) ∷ []
unfolding split_from
split_from-digits cur [] h = rw append-nil
split_from-digits cur (c ∷ s) (p, h) =
    ground (arith, split_from-digits (cur ++ c ∷ []) s h, append_assoc cur (c ∷ []) s)

pub split_from-point :
    (cur s t : Text)
    → IsDigits s
    → split_from b'.' cur (s ++ b'.' ∷ t) ≡ (cur ++ s) ∷ split_from b'.' [] t
unfolding split_from
split_from-point cur [] t h = rw append-nil
split_from-point cur (c ∷ s) t (p, h) =
    ground (arith, split_from-point (cur ++ c ∷ []) s t h, append_assoc cur (c ∷ []) s)

-- A plain decimal number as it is written: digits, or digits, a point and digits.
pub data Plain : Type 0 where
  whole : Text → Plain
  pointed : Text → Text → Plain

-- All characters are digits, a whole number has one at least, and there are at most `scale` decimals.
abbrev pub IsPlain : ℕ → Plain → Type 0
IsPlain scale (whole s) = IsDigits s × (s ≢ [])
IsPlain scale (pointed s t) = IsDigits s × IsDigits t × (length t ≤ scale)

abbrev pub written : Plain → Text
written (whole s) = s
written (pointed s t) = s ++ b'.' ∷ t

-- The number of units of 1 / 10 ^ scale that it denotes.
abbrev pub units : ℕ → Plain → ℕ
units scale (whole s) = decimal s * 10 ^ scale
units scale (pointed s t) = decimal s * 10 ^ scale + decimal t * 10 ^ (scale - length t)

pub zeros-IsDigits : (n : ℕ) → IsDigits (replicate n b'0')
zeros-IsDigits zero = tt
zeros-IsDigits (suc n) = (refl, zeros-IsDigits n)

decimal-zeros : (n acc : ℕ) → decimal_from acc (replicate n b'0') ≡ acc * 10 ^ n
decimal-zeros zero acc = omega arith
decimal-zeros (suc n) acc = rw (decimal-zeros n (acc * 10 + 0), pow-suc) (omega arith)

take-all : (n : ℕ) (s : Text) → length s ≤ n → take n s ≡ s
take-all zero [] h = refl
take-all zero (c ∷ s) h = absurd (omega arith)
take-all (suc n) [] h = refl
take-all (suc n) (c ∷ s) h = ap (◌∷◌ c) (take-all n s (omega arith))

pub pad_end-fits :
    (s : Text) (n : ℕ) → length s ≤ n → take n (pad_end s n) ≡ s ++ replicate (n - length s) b'0'
pad_end-fits s n h = take-all n _ (
    omega (
      arith,
      length-append s (replicate (n - length s) b'0'),
      length-replicate {A = ℕ} (n - length s) b'0',
    ))

ten_pow_add : (m k : ℕ) → 10 ^ (m + k) ≡ 10 ^ m * 10 ^ k
ten_pow_add m zero = rw add-zero (omega arith)
ten_pow_add m (suc k) =
    rw (add-suc m k, pow-suc 10 (m + k), pow-suc 10 k, ten_pow_add m k) (omega arith)

pub decimal_padded :
    (s t : Text) (m k : ℕ)
    → length t ≡ m
    → decimal (s ++ (t ++ replicate k b'0')) ≡ decimal s * 10 ^ (m + k) + decimal t * 10 ^ k
decimal_padded s t m k e =
    decimal (s ++ (t ++ replicate k b'0'))
    ≡⟨ decimal_from-append 0 s (t ++ replicate k b'0')
      ∙ decimal_from-append (decimal s) t (replicate k b'0') ⟩
      decimal_from (decimal_from (decimal s) t) (replicate k b'0')
    ≡⟨ decimal-zeros k (decimal_from (decimal s) t) ⟩ decimal_from (decimal s) t * 10 ^ k
    ≡⟨ rw (decimal_from-shift (decimal s) t, e, ten_pow_add m k) (omega arith) ⟩
      decimal s * 10 ^ (m + k) + decimal t * 10 ^ k ∎
