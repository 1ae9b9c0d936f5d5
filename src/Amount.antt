-- ===== src/Amount.antt =====
-- src/payments/amount-utils.ts: amounts as BigInt scaled to a number of decimal places.
-- An argument is the text that `String(amount)` gives.
pub mod Decimal
pub mod Parse
mod Tests
use orbit_stream_backend.Common.{
  ℕ, zero, suc, ◌+◌, ◌-◌, ◌*◌, ◌==◌, Bool, true, false, ◌&&◌, ◌||◌, List, [], ◌∷◌, ◌++◌, Option,
  none, some, leb, if◌then◌else◌, Result, ok, err, ◌>>=◌, length, get_or, take, replicate,
}
use orbit_stream_backend.Common.Int.{ℤ, pos, neg, beq_ℤ}
use orbit_stream_backend.Common.Text.{Text, codes, is_empty, starts_with, slice, trim, split}

pub data AmountError : Type 0 where
  empty_amount bad_syntax : AmountError

abbrev pub is_digit : ℕ → Bool
is_digit c = leb b'0' c && leb c b'9'

-- The value of a digit in a base up to 16.
abbrev pub digit_value : ℕ → Option ℕ
digit_value c =
    if is_digit c
    then some (c - b'0')
    else if leb b'a' c && leb c b'f'
    then some (c - b'a' + 10)
    else if leb b'A' c && leb c b'F'
    then some (c - b'A' + 10)
    else none

abbrev pub below_base : ℕ → Option ℕ → Option ℕ
below_base base none = none
below_base base (some d) = if leb base d then none else some d

-- The digits of a BigInt literal, read from the left; `none` at a character that is no digit.
pub digits_from : ℕ → ℕ → Text → Option ℕ
digits_from base acc [] = some acc
digits_from base acc (c ∷ s) = elim (below_base base (digit_value c)) [
  | none ↦ none
  | some d ↦ digits_from base (acc * base + d) s
]

abbrev pub digits : ℕ → Text → Option ℕ
digits base [] = none
digits base (c ∷ s) = digits_from base 0 (c ∷ s)

abbrev pub as_pos : Option ℕ → Option ℤ
as_pos none = none
as_pos (some n) = some (pos n)

abbrev pub as_neg : Option ℕ → Option ℤ
as_neg none = none
as_neg (some n) = some (neg (pos n))

-- StringToBigInt of ECMAScript after the white space is off: hexadecimal, octal and binary literals
-- without a sign, or decimal digits with an optional one; the empty text is 0.
abbrev pub integer_literal : Text → Option ℤ
integer_literal [] = some (pos 0)
integer_literal (c ∷ []) = as_pos (digits 10 (c ∷ []))
integer_literal (c ∷ x ∷ s) =
    if c == b'0' && (x == b'x' || x == b'X')
    then as_pos (digits 16 s)
    else if c == b'0' && (x == b'o' || x == b'O')
    then as_pos (digits 8 s)
    else if c == b'0' && (x == b'b' || x == b'B')
    then as_pos (digits 2 s)
    else if c == b'-'
    then as_neg (digits 10 (x ∷ s))
    else if c == b'+'
    then as_pos (digits 10 (x ∷ s))
    else as_pos (digits 10 (c ∷ x ∷ s))

-- `BigInt(s)`, which throws a SyntaxError on a text that is no integer.
unfoldable pub big_int : Text → Result AmountError ℤ
unfolding digits_from trim
big_int s = elim (integer_literal (trim s)) [ none ↦ err bad_syntax | some n ↦ ok n ]

-- `s.padEnd(n, '0')`
abbrev pub pad_end : Text → ℕ → Text
pad_end s n = s ++ replicate (n - length s) b'0'

-- `intStr || '0'`
abbrev pub or_zero : Text → Text
or_zero s = if is_empty s then codes "0" else s

-- The part of `parseAmountToBigInt` below the sign.
pub parse_unsigned : Text → ℕ → Result AmountError ℤ
unfolding big_int split
parse_unsigned s scale =
    let parts = split b'.' s in
    let int_str = get_or parts 0 (codes "0") in
    let dec_str = get_or parts 1 [] in
    let padded_dec = take scale (pad_end dec_str scale) in big_int (or_zero int_str ++ padded_dec)

unfoldable pub parse_amount_to_big_int : Text → ℕ → Result AmountError ℤ
unfolding parse_unsigned trim
parse_amount_to_big_int amount scale =
    let str = trim amount in
    if is_empty str
    then err empty_amount
    else if starts_with str (codes "-")
    then (parse_unsigned (slice str 1) scale >>= λ result. ok (neg result))
    else parse_unsigned str scale

-- The two results, with `catch { return false }`.
abbrev pub same_amount : Result AmountError ℤ → Result AmountError ℤ → Bool
same_amount (ok x) (ok y) = beq_ℤ x y
same_amount (ok x) (err e) = false
same_amount (err e) y = false

unfoldable pub are_amounts_equal : Text → Text → ℕ → Bool
unfolding parse_amount_to_big_int
are_amounts_equal a b scale =
    same_amount (parse_amount_to_big_int a scale) (parse_amount_to_big_int b scale)
