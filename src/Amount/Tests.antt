-- ===== src/Amount/Tests.antt =====
-- Runs of amount-utils.ts on the inputs of its unit tests and a few others.
use orbit_stream_backend.Common.{◌≡◌, ◌↔◌, refl, arith, true, false, ok, err}
use orbit_stream_backend.Common.Int.{pos, negsuc}
use orbit_stream_backend.Common.Text.{codes}
use orbit_stream_backend.Amount.Decimal.{Plain, pointed, units, IsPlain}
use orbit_stream_backend.Amount.Parse.{are_amounts_equal_iff}
use orbit_stream_backend.Amount.{
  parse_amount_to_big_int, are_amounts_equal, empty_amount, bad_syntax,
}

whole_number : parse_amount_to_big_int (codes " 100 ") 7 ≡ ok (pos 1000000000)
unfolding parse_amount_to_big_int
whole_number = refl

negative : parse_amount_to_big_int (codes "-1.5") 7 ≡ ok (negsuc 14999999)
unfolding parse_amount_to_big_int
negative = refl

no_text : parse_amount_to_big_int (codes "  ") 7 ≡ err empty_amount
unfolding parse_amount_to_big_int
no_text = refl

no_number : parse_amount_to_big_int (codes "abc") 7 ≡ err bad_syntax
unfolding parse_amount_to_big_int
no_number = refl

hexadecimal : parse_amount_to_big_int (codes "0x1.8") 1 ≡ ok (pos 24)
unfolding parse_amount_to_big_int
hexadecimal = refl

trailing_zeros : are_amounts_equal (codes "25.5") (codes "25.5000000") 7 ≡ true
unfolding are_amounts_equal
trailing_zeros = refl

exponent : are_amounts_equal (codes "1e2") (codes "100") 7 ≡ false
unfolding are_amounts_equal
exponent = refl

abbrev price : Plain
price = pointed (codes "25") (codes "5")

abbrev paid : Plain
paid = pointed (codes "025") (codes "5000000")

price-IsPlain : IsPlain 7 price
price-IsPlain = ground arith

paid-IsPlain : IsPlain 7 paid
paid-IsPlain = ground arith

are_amounts_equal_iff_example :
    (are_amounts_equal (codes "25.5") (codes "025.5000000") 7 ≡ true)
    ↔ (pos (units 7 price) ≡ pos (units 7 paid))
are_amounts_equal_iff_example =
    are_amounts_equal_iff false false price paid 7 price-IsPlain paid-IsPlain
