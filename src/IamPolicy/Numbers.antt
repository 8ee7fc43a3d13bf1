-- ===== src/IamPolicy/Numbers.antt =====
-- pkg/iampolicy/numbers.go: exact decimals, their reading and their order.
pub mod Order
pub mod Signed
mod Samples
use bluebottle.Prelude.{
  ℕ, ◌-◌, ◌^◌, Bool, true, false, ◌&&◌, ◌||◌, not, Option, none, some, List, [], ◌∷◌, ◌++◌, map,
  Bytes, ◌==◌, ltb, if◌then◌else◌, length, any, is_empty, eqb,
}
use bluebottle.Prelude.Int.{ℤ, pos, negsuc, ◌+ℤ◌, ◌-ℤ◌, ltb_ℤ}
use bluebottle.Strings.{cut_byte}
use bluebottle.Strings.Decimal.{all_digits, parse_int}
use bluebottle.IamPolicy.Comparison.{
  Comparison, less, same, greater, reverse_comparison, is_same, is_less, is_greater,
}
use bluebottle.IamPolicy.Operators.{
  op_numeric_equals, op_numeric_less_than, op_numeric_less_than_equals, op_numeric_greater_than,
  op_numeric_greater_than_equals,
}

-- The struct `Number`.
pub record Number : Type 0 where
  pub neg : Bool
  pub digits : Bytes
  pub exp : ℤ

abbrev pub zero_number : Number
zero_number = record { neg = false; digits = []; exp = pos 0 }

-- `strings.TrimLeft(s, "0")`
unfoldable pub trim_left_zeros : Bytes → Bytes
trim_left_zeros [] = []
trim_left_zeros (c ∷ s) = let rest = trim_left_zeros s in if c == b'0' then rest else c ∷ s

-- `strings.TrimRight(s, "0")`
unfoldable pub trim_right_zeros : Bytes → Bytes
trim_right_zeros [] = []
trim_right_zeros (c ∷ s) =
    let rest = trim_right_zeros s in if c == b'0' && is_empty rest then [] else c ∷ rest

-- `strings.Cut`, with what is found as its third result.
unfoldable pub cut : ℕ → Bytes → Bytes × Bytes × Bool
unfolding cut_byte
cut b s = elim (cut_byte b s) [ none ↦ (s, [], false) | some (x, y) ↦ (x, y, true) ]

abbrev pub read_sign : Bytes → Bool × Bytes
read_sign [] = (false, [])
read_sign (c ∷ s) = if c == b'+' || c == b'-' then (c == b'-', s) else (false, c ∷ s)

-- The end of `ParseNumber`, from the sign, the parts of the mantissa and the exponent on.
unfoldable pub scaled_number : Bool → Bytes → Bytes → ℤ → Option Number
unfolding ◌-ℤ◌ trim_left_zeros trim_right_zeros
scaled_number neg whole frac exp =
    let scale = pos (length frac) -ℤ exp in
    let digits = trim_left_zeros (whole ++ frac) in
    let trimmed = trim_right_zeros digits in
    if ltb_ℤ scale (negsuc (2 ^ 31 - 1)) || ltb_ℤ (pos (2 ^ 31 - 1)) scale
    then none
    else if is_empty trimmed
    then some zero_number
    else some (record {
      neg = neg;
      digits = trimmed;
      exp = pos (length digits - length trimmed) -ℤ scale;
    })

unfoldable pub parse_number : Bytes → Option Number
unfolding cut all_digits parse_int scaled_number
parse_number s =
    let (neg, s') = read_sign s in
    let (mantissa, exponent, has_exp) = cut b'e' (map (λ c. if c == b'E' then b'e' else c) s') in
    let (whole, frac, _) = cut b'.' mantissa in
    if not (all_digits (whole ++ frac))
    then none
    else if has_exp
    then elim (parse_int 32 exponent) [ none ↦ none | some e ↦ scaled_number neg whole frac e ]
    else scaled_number neg whole frac (pos 0)

-- `sign`
unfoldable pub sign : Number → ℤ
sign n = if is_empty n.digits then pos 0 else if n.neg then negsuc 0 else pos 1

-- `strings.Compare`
unfoldable pub compare_bytes : Bytes → Bytes → Comparison
compare_bytes [] [] = same
compare_bytes [] (d ∷ t) = less
compare_bytes (c ∷ s) [] = greater
compare_bytes (c ∷ s) (d ∷ t) =
    let rest = compare_bytes s t in if ltb c d then less else if ltb d c then greater else rest

unfoldable pub magnitude_compare : Number → Number → Comparison
unfolding ◌+ℤ◌ compare_bytes
magnitude_compare n o =
    let n_top = pos (length n.digits) +ℤ n.exp in
    let o_top = pos (length o.digits) +ℤ o.exp in
    if ltb_ℤ n_top o_top
    then less
    else if ltb_ℤ o_top n_top
    then greater
    else compare_bytes n.digits o.digits

unfoldable pub compare_numbers : Number → Number → Comparison
unfolding sign magnitude_compare
compare_numbers n o =
    if ltb_ℤ (sign n) (sign o)
    then less
    else if ltb_ℤ (sign o) (sign n)
    then greater
    else if is_empty n.digits
    then same
    else if n.neg
    then reverse_comparison (magnitude_compare n o)
    else magnitude_compare n o

unfoldable pub numeric_compares : Bytes → Comparison → Bool
numeric_compares operator cmp =
    if eqb operator op_numeric_equals
    then is_same cmp
    else if eqb operator op_numeric_less_than
    then is_less cmp
    else if eqb operator op_numeric_less_than_equals
    then not (is_greater cmp)
    else if eqb operator op_numeric_greater_than
    then is_greater cmp
    else if eqb operator op_numeric_greater_than_equals
    then not (is_less cmp)
    else false

-- One round of `numericHoldsAny`.
abbrev numeric_holds : Bytes → Number → Bytes → Bool
numeric_holds operator at v = elim (parse_number v) [
  | none ↦ false
  | some want ↦ numeric_compares operator (compare_numbers at want)
]

unfoldable pub numeric_holds_any : Bytes → Bytes → List Bytes → Bool → Bool
unfolding parse_number numeric_compares compare_numbers
numeric_holds_any operator actual values fail_closed = elim (parse_number actual) [
  | none ↦ fail_closed
  | some at ↦ any (numeric_holds operator at) values
]
