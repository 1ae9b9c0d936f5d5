-- ===== src/Amount/Parse.antt =====
-- parseAmountToBigInt and areAmountsEqual on plain decimal texts, signed or not.
use native.Mathlib.Omega.{arith}
use orbit_stream_backend.Common.{
  ℕ, ◌+◌, ◌-◌, ◌*◌, ◌^◌, ◌≤◌, ◌≡◌, ◌≢◌, refl, ap, ◌∙◌, Bool, true, false, [], ◌∷◌, ◌++◌, ◌↔◌, ok,
  length, take, replicate, All-append,
}
use orbit_stream_backend.Common.Int.{ℤ, pos, neg, beq_ℤ_iff}
use orbit_stream_backend.Common.Text.{Text, split}
use orbit_stream_backend.Amount.{
  or_zero, pad_end, big_int, parse_unsigned, parse_amount_to_big_int, are_amounts_equal,
}
use orbit_stream_backend.Amount.Decimal.{
  IsDigits, IsSolid, IsSolid-digits, Plain, whole, pointed, IsPlain, written, units, decimal,
  integer_literal-IsDigits, trim-IsSolid, split_from-digits, split_from-point, pad_end-fits,
  decimal_padded, zeros-IsDigits,
}

big_int-IsDigits : (s : Text) → IsDigits s → s ≢ [] → big_int s ≡ ok (pos (decimal s))
unfolding big_int
big_int-IsDigits s h ne =
    rw (trim-IsSolid s (IsSolid-digits s h), integer_literal-IsDigits s h ne, big_int)

or_zero-IsDigits : (s : Text) → IsDigits s → IsDigits (or_zero s)
or_zero-IsDigits [] h = (refl, tt)
or_zero-IsDigits (c ∷ s) h = h

decimal-or_zero : (s : Text) → decimal (or_zero s) ≡ decimal s
decimal-or_zero [] = refl
decimal-or_zero (c ∷ s) = refl

or_zero-append-ne-nil : (s t : Text) → or_zero s ++ t ≢ []
or_zero-append-ne-nil [] t e = cc
or_zero-append-ne-nil (c ∷ s) t e = cc

-- The digits that are handed to `BigInt`, as a number.
big_int_padded :
    (s t : Text) (scale : ℕ)
    → IsDigits s
    → IsDigits t
    → length t ≤ scale
    → big_int (or_zero s ++ take scale (pad_end t scale))
      ≡ ok (pos (decimal s * 10 ^ scale + decimal t * 10 ^ (scale - length t)))
big_int_padded s t scale hs ht fits =
    rw
      (
        pad_end-fits t scale fits,
        big_int-IsDigits (or_zero s ++ (t ++ replicate (scale - length t) b'0'))
            (All-append _ (or_zero s) _ (or_zero-IsDigits s hs)
              (All-append _ t _ ht (zeros-IsDigits (scale - length t))))
            (or_zero-append-ne-nil s _),
        decimal_padded (or_zero s) t (length t) (scale - length t) refl,
        decimal-or_zero s,
      )
      (rw scale_parts)
  where
    scale_parts : length t + (scale - length t) ≡ scale
    scale_parts = omega arith

parse_unsigned-written :
    (p : Plain) (scale : ℕ)
    → IsPlain scale p
    → parse_unsigned (written p) scale ≡ ok (pos (units scale p))
unfolding parse_unsigned split
parse_unsigned-written (whole s) scale (h, ne) =
    rw (split_from-digits [] s h)
      (big_int_padded s [] scale h tt (omega arith) ∙ ap (λ n. ok (pos n)) (omega arith))
parse_unsigned-written (pointed s t) scale (hs, ht, fits) =
    rw (split_from-point [] s t hs, split_from-digits [] t ht) (big_int_padded s t scale hs ht fits)

-- A digit or a point is no white space.
IsSolid-written : (p : Plain) (scale : ℕ) → IsPlain scale p → IsSolid (written p)
IsSolid-written (whole s) scale (h, ne) = IsSolid-digits s h
IsSolid-written (pointed s t) scale (hs, ht, fits) =
    All-append _ s (b'.' ∷ t) (IsSolid-digits s hs) (refl, IsSolid-digits t ht)

parse_amount_unsigned :
    (p : Plain) (scale : ℕ)
    → IsPlain scale p
    → parse_amount_to_big_int (written p) scale ≡ parse_unsigned (written p) scale
unfolding parse_amount_to_big_int
parse_amount_unsigned (whole []) scale (h, ne) = absurd (ne refl)
parse_amount_unsigned (whole (c ∷ s)) scale (h, ne) =
    ground (arith, trim-IsSolid (c ∷ s) (IsSolid-digits (c ∷ s) h))
parse_amount_unsigned (pointed [] t) scale h =
    ground (arith, trim-IsSolid (b'.' ∷ t) (IsSolid-written (pointed [] t) scale h))
parse_amount_unsigned (pointed (c ∷ s) t) scale h =
    ground (arith, trim-IsSolid (c ∷ (s ++ b'.' ∷ t)) (IsSolid-written (pointed (c ∷ s) t) scale h))

parse_amount_negative :
    (p : Plain) (scale : ℕ)
    → IsPlain scale p
    → parse_amount_to_big_int (b'-' ∷ written p) scale ≡ ok (neg (pos (units scale p)))
unfolding parse_amount_to_big_int
parse_amount_negative p scale h = rw (
  trim-IsSolid (b'-' ∷ written p) (refl, IsSolid-written p scale h),
  parse_unsigned-written p scale h,
)

-- The text with the sign in front of it.
abbrev pub signed : Bool → Text → Text
signed false s = s
signed true s = b'-' ∷ s

abbrev pub with_sign : Bool → ℕ → ℤ
with_sign false n = pos n
with_sign true n = neg (pos n)

-- A plain decimal text with at most `scale` decimals, with or without a minus sign, is parsed to the
-- exact number of units of 1 / 10 ^ scale that it denotes.
pub parse_amount-exact :
    (minus : Bool) (p : Plain) (scale : ℕ)
    → IsPlain scale p
    → parse_amount_to_big_int (signed minus (written p)) scale
      ≡ ok (with_sign minus (units scale p))
parse_amount-exact false p scale h =
    parse_amount_unsigned p scale h ∙ parse_unsigned-written p scale h
parse_amount-exact true p scale h = parse_amount_negative p scale h

-- Two plain decimal texts, signed or not, with at most `scale` decimals, are equal amounts exactly
-- when they denote the same number of units, so that
-- trailing zeros and leading zeros make no difference and any other digit does.
pub are_amounts_equal_iff :
    (m n : Bool) (p q : Plain) (scale : ℕ)
    → IsPlain scale p
    → IsPlain scale q
    → (are_amounts_equal (signed m (written p)) (signed n (written q)) scale ≡ true)
      ↔ (with_sign m (units scale p) ≡ with_sign n (units scale q))
unfolding are_amounts_equal
are_amounts_equal_iff m n p q scale hp hq =
    rw (parse_amount-exact m p scale hp, parse_amount-exact n q scale hq) (beq_ℤ_iff _ _)
