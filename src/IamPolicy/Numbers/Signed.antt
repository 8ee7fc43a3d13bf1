-- ===== src/IamPolicy/Numbers/Signed.antt =====
-- pkg/iampolicy/numbers.go: the order of the numbers that `ParseNumber` reads.
use bluebottle.Prelude.{
  ℕ, ◌+◌, ◌-◌, ◌^◌, ◌<◌, ◌≡◌, refl, ap, ◌∙◌, subst, Bool, true, false, not, ◌&&◌, ◌||◌, [], ◌∷◌,
  ◌++◌, Option, none, some, map, Bytes, ◌==◌, length, all, is_empty, arith, if◌then◌else◌,
  Bool-cases, inl, inr,
}
use bluebottle.Prelude.Int.{ℤ, pos, negsuc, pos_part, neg_part, ltb_ℤ, negate, ◌-ℤ◌}
use bluebottle.Strings.Decimal.{is_digit, all_digits, parse_int}
use bluebottle.IamPolicy.Comparison.{Comparison, less, same, greater, reverse_comparison, compare_ℤ}
use bluebottle.IamPolicy.Numbers.{Number, magnitude_compare, compare_numbers}
use bluebottle.IamPolicy.Numbers.{
  parse_number, scaled_number, trim_left_zeros, trim_right_zeros, zero_number, cut, read_sign,
}
use bluebottle.IamPolicy.Numbers.Order.{
  compare_ℕ, value, trimmed, both, leads, IsCanonical, value_positive, magnitude_compare-value,
}

-- The value of a number in units of a power of ten, by the weight of its last digit.
abbrev pub signed_value : Number → ℕ → ℤ
signed_value n a = if n.neg then negate (pos (value n.digits a)) else pos (value n.digits a)

abbrev Sized : Bool → ℕ → Type 0
Sized true x = x ≡ 0
Sized false x = 0 < x

abbrev sign_of : Bool → Bool → ℤ
sign_of e p = if e then pos 0 else if p then negsuc 0 else pos 1

abbrev with_sign : Bool → ℕ → ℤ
with_sign p x = if p then negate (pos x) else pos x

compare_signed :
    (e f p q : Bool) (x y : ℕ) (m : Comparison)
    → Sized e x
    → Sized f y
    → (e ≡ false → f ≡ false → m ≡ compare_ℕ x y)
    → (if ltb_ℤ (sign_of e p) (sign_of f q)
        then less
        else if ltb_ℤ (sign_of f q) (sign_of e p)
        then greater
        else if e
        then same
        else if p
        then reverse_comparison m
        else m)
      ≡ compare_ℤ (with_sign p x) (with_sign q y)
compare_signed true true true true x y m h k c = ground (arith, h, k)
compare_signed true true true false x y m h k c = ground (arith, h, k)
compare_signed true true false true x y m h k c = ground (arith, h, k)
compare_signed true true false false x y m h k c = ground (arith, h, k)
compare_signed true false true true x y m h k c = ground (arith, h, k)
compare_signed true false true false x y m h k c = ground (arith, h, k)
compare_signed true false false true x y m h k c = ground (arith, h, k)
compare_signed true false false false x y m h k c = ground (arith, h, k)
compare_signed false true true true x y m h k c = ground (arith, h, k)
compare_signed false true true false x y m h k c = ground (arith, h, k)
compare_signed false true false true x y m h k c = ground (arith, h, k)
compare_signed false true false false x y m h k c = ground (arith, h, k)
compare_signed false false true false x y m h k c = ground (arith, h, k)
compare_signed false false false true x y m h k c = ground (arith, h, k)
compare_signed false false false false x y m h k c = c refl refl ∙ ground (arith, h, k)
compare_signed false false true true x y m h k c =
    ap reverse_comparison (c refl refl) ∙ ground (arith, h, k)

value-Sized : (n : Number) (a : ℕ) → IsCanonical n → Sized (is_empty n.digits) (value n.digits a)
value-Sized n a c = given n.digits c.digits c.last
  where
    given : (s : Bytes) → all is_digit s ≡ true → trimmed s ≡ true → Sized (is_empty s) (value s a)
    given [] h u = unfold value in refl
    given (d ∷ s) h u = value_positive (d ∷ s) a h u refl

compare_numbers-value :
    (n o : Number) (k a b : ℕ)
    → IsCanonical n
    → IsCanonical o
    → pos_part n.exp + k ≡ a + neg_part n.exp
    → pos_part o.exp + k ≡ b + neg_part o.exp
    → compare_numbers n o ≡ compare_ℤ (signed_value n a) (signed_value o b)
unfolding compare_numbers
compare_numbers-value n o k a b cn co hn ho =
    compare_signed (is_empty n.digits) (is_empty o.digits) n.neg o.neg (value n.digits a)
      (value o.digits b) (magnitude_compare n o) (value-Sized n a cn) (value-Sized o b co)
      (λ en eo. magnitude_compare-value n o k a b cn co en eo hn ho)

all-trim_left_zeros : (s : Bytes) → all is_digit s ≡ true → all is_digit (trim_left_zeros s) ≡ true
unfolding trim_left_zeros
all-trim_left_zeros [] h = refl
all-trim_left_zeros (c ∷ s) h =
    let (d, k) = both (is_digit c) (all is_digit s) h in
    elim (Bool-cases (c == b'0')) [ inl e ↦ rw (e) (all-trim_left_zeros s k) | inr e ↦ rw (e) h ]

leads-trim_left_zeros : (s : Bytes) → leads (trim_left_zeros s) ≡ true
unfolding trim_left_zeros
leads-trim_left_zeros [] = refl
leads-trim_left_zeros (c ∷ s) = elim (Bool-cases (c == b'0')) [
  | inl e ↦ rw (e) (leads-trim_left_zeros s)
  | inr e ↦ rw (e) (rw (e) refl)
]

all-trim_right_zeros :
    (s : Bytes) → all is_digit s ≡ true → all is_digit (trim_right_zeros s) ≡ true
unfolding trim_right_zeros
all-trim_right_zeros [] h = refl
all-trim_right_zeros (c ∷ s) h =
    let (d, k) = both (is_digit c) (all is_digit s) h in
    elim (Bool-cases ((c == b'0') && is_empty (trim_right_zeros s))) [
      | inl e ↦ rw (e) refl
      | inr e ↦ rw (e) (rw (d, all-trim_right_zeros s k) refl)
    ]

trimmed-trim_right_zeros : (s : Bytes) → trimmed (trim_right_zeros s) ≡ true
unfolding trim_right_zeros trimmed
trimmed-trim_right_zeros [] = refl
trimmed-trim_right_zeros (c ∷ s) =
    elim (Bool-cases ((c == b'0') && is_empty (trim_right_zeros s))) [
      | inl e ↦ rw (e) refl
      | inr e ↦ rw (e) (rw (e, trimmed-trim_right_zeros s) refl)
    ]

leads-trim_right_zeros : (s : Bytes) → leads s ≡ true → leads (trim_right_zeros s) ≡ true
unfolding trim_right_zeros
leads-trim_right_zeros [] h = refl
leads-trim_right_zeros (c ∷ s) h =
    elim (Bool-cases ((c == b'0') && is_empty (trim_right_zeros s))) [
      | inl e ↦ rw (e) refl
      | inr e ↦ rw (e) h
    ]

zero_number-IsCanonical : IsCanonical zero_number
zero_number-IsCanonical = record { digits = refl; last = unfold trimmed in refl; first = refl }

digits_of : (s : Bytes) → all_digits s ≡ true → all is_digit s ≡ true
unfolding all_digits
digits_of s h = (both (not (is_empty s)) (all is_digit s) h).1

scaled_number-IsCanonical :
    (neg : Bool) (whole frac : Bytes) (exp : ℤ) (n : Number)
    → all is_digit (whole ++ frac) ≡ true
    → scaled_number neg whole frac exp ≡ some n
    → IsCanonical n
unfolding scaled_number
scaled_number-IsCanonical neg whole frac exp n h e =
    let digits = trim_left_zeros (whole ++ frac) in
    let scale = pos (length frac) -ℤ exp in
    let made : Number = record {
      neg = neg;
      digits = trim_right_zeros digits;
      exp = pos (length digits - length (trim_right_zeros digits)) -ℤ scale;
    } in
    given (ltb_ℤ scale (negsuc (2 ^ 31 - 1)) || ltb_ℤ (pos (2 ^ 31 - 1)) scale)
      (is_empty (trim_right_zeros digits)) made e
      (record {
        digits = all-trim_right_zeros digits (all-trim_left_zeros (whole ++ frac) h);
        last = trimmed-trim_right_zeros digits;
        first = leads-trim_right_zeros digits (leads-trim_left_zeros (whole ++ frac));
      })
  where
    given :
        (b c : Bool) (made : Number)
        → (if b then none else if c then some zero_number else some made) ≡ some n
        → IsCanonical made
        → IsCanonical n
    given true c made k m = cc
    given false true made k m =
        let same : zero_number ≡ n = cc in subst IsCanonical same zero_number-IsCanonical
    given false false made k m = let same : made ≡ n = cc in subst IsCanonical same m

-- From the test of the mantissa on.
mantissa-IsCanonical :
    (d : Bool) (whole frac : Bytes) (has_exp : Bool) (exp : Option ℤ) (neg : Bool) (n : Number)
    → all_digits (whole ++ frac) ≡ d
    → (if not d
        then none
        else if has_exp
        then elim exp as (λ x. Option Number) [
          | none ↦ none
          | some e ↦ scaled_number neg whole frac e
        ]
        else scaled_number neg whole frac (pos 0))
      ≡ some n
    → IsCanonical n
mantissa-IsCanonical false whole frac has_exp exp neg n d h = cc
mantissa-IsCanonical true whole frac true none neg n d h = cc
mantissa-IsCanonical true whole frac true (some e) neg n d h =
    scaled_number-IsCanonical neg whole frac e n (digits_of (whole ++ frac) d) h
mantissa-IsCanonical true whole frac false exp neg n d h =
    scaled_number-IsCanonical neg whole frac (pos 0) n (digits_of (whole ++ frac) d) h

parse_number-IsCanonical : (s : Bytes) (n : Number) → parse_number s ≡ some n → IsCanonical n
unfolding parse_number
parse_number-IsCanonical s n h =
    let (neg, s') = read_sign s in
    let (mantissa, exponent, has_exp) = cut b'e' (map (λ c. if c == b'E' then b'e' else c) s') in
    let (whole, frac, _) = cut b'.' mantissa in
    mantissa-IsCanonical (all_digits (whole ++ frac)) whole frac has_exp (parse_int 32 exponent) neg
      n refl h

-- `Compare` orders the numbers that `ParseNumber` reads as their exact values are ordered, which are
-- digits × 10 ^ exp with the sign: in units of any 10 ^ -k that measure both as whole numbers, with
-- a and b for the exponents, it is the comparison of these.
pub parse_number-compare_numbers :
    (s t : Bytes) (n o : Number) (k a b : ℕ)
    → parse_number s ≡ some n
    → parse_number t ≡ some o
    → pos_part n.exp + k ≡ a + neg_part n.exp
    → pos_part o.exp + k ≡ b + neg_part o.exp
    → compare_numbers n o ≡ compare_ℤ (signed_value n a) (signed_value o b)
parse_number-compare_numbers s t n o k a b hs ht hn ho =
    compare_numbers-value n o k a b (parse_number-IsCanonical s n hs)
      (parse_number-IsCanonical t o ht) hn ho
