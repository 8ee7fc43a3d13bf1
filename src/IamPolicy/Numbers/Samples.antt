-- ===== src/IamPolicy/Numbers/Samples.antt =====
-- pkg/iampolicy/numbers.go: 1.50 is less than 150e-1.
use bluebottle.Prelude.{◌≡◌, refl, false, some, codes}
use bluebottle.Prelude.Int.{pos, negsuc}
use bluebottle.IamPolicy.Comparison.{compare_ℤ, less}
use bluebottle.IamPolicy.Numbers.{Number, parse_number, compare_numbers}
use bluebottle.IamPolicy.Numbers.Signed.{signed_value, parse_number-compare_numbers}

abbrev tenths : Number
tenths = record { neg = false; digits = codes "15"; exp = negsuc 0 }

abbrev ones : Number
ones = record { neg = false; digits = codes "15"; exp = pos 0 }

tenths_read : parse_number (codes "1.50") ≡ some tenths
unfolding parse_number
tenths_read = refl

ones_read : parse_number (codes "150e-1") ≡ some ones
unfolding parse_number
ones_read = refl

ordered : compare_numbers tenths ones ≡ less
unfolding compare_numbers
ordered = refl

parse_number-compare_numbers_example :
    compare_numbers tenths ones ≡ compare_ℤ (signed_value tenths 0) (signed_value ones 1)
parse_number-compare_numbers_example =
    parse_number-compare_numbers (codes "1.50") (codes "150e-1") tenths ones 1 0 1 tenths_read
      ones_read refl refl
