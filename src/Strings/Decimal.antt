-- ===== src/Strings/Decimal.antt =====
-- Integers in decimal, as Go's `strconv` reads and writes them.
use bluebottle.Prelude.{
  ℕ, zero, suc, ◌+◌, ◌-◌, ◌*◌, ◌/◌, ◌%◌, ◌^◌, ◌≤◌, ◌<◌, ◌≡◌, refl, ap, ◌∙◌, Bool, true, false, ◌&&◌,
  not, Option, none, some, [], ◌∷◌, arith, Bytes, ◌==◌, ltb, leb, if◌then◌else◌, all, is_empty,
  Bool-cases, inl, inr,
}
use native.Mathlib.Nat.{pow-suc}
use bluebottle.Prelude.Int.{ℤ, pos, negsuc, negate, pos_part, neg_part}

abbrev pub is_digit : ℕ → Bool
is_digit c = leb b'0' c && leb c b'9'

-- `allDigits` of pkg/iampolicy/dates.go.
unfoldable pub all_digits : Bytes → Bool
all_digits s = not (is_empty s) && all is_digit s

-- The number that digits spell, behind the number `n`.
unfoldable pub digits_value : ℕ → Bytes → ℕ
digits_value n [] = n
digits_value n (c ∷ s) = digits_value (n * 10 + (c - b'0')) s

-- Digits with a sign, and a value of `bits` bits.
abbrev pub signed_in_range : ℕ → Bool → Bytes → Option ℤ
signed_in_range bits neg s =
    let n = digits_value 0 s in
    if not (all_digits s)
    then none
    else if neg
    then (if leb n (2 ^ (bits - 1)) then some (negate (pos n)) else none)
    else if ltb n (2 ^ (bits - 1))
    then some (pos n)
    else none

-- `strconv.ParseInt(s, 10, bits)`
unfoldable pub parse_int : ℕ → Bytes → Option ℤ
unfolding all_digits digits_value
parse_int bits [] = none
parse_int bits (c ∷ s) =
    if c == b'-'
    then signed_in_range bits true s
    else if c == b'+'
    then signed_in_range bits false s
    else signed_in_range bits false (c ∷ s)

-- The digits of `n` in front of `rest`; the fuel bounds how many.
unfoldable pub digits : ℕ → ℕ → Bytes → Bytes
digits zero n rest = rest
digits (suc fuel) n rest =
    let more = (b'0' + n % 10) ∷ rest in
    let all_digits' = digits fuel (n / 10) more in if ltb n 10 then more else all_digits'

-- The digits of a number, for an `int64`, which has 19 at most.
unfoldable pub decimal : ℕ → Bytes
unfolding digits
decimal n = digits 20 n []

-- `strconv.FormatInt(x, 10)`
unfoldable pub format_int : ℤ → Bytes
unfolding decimal
format_int (pos n) = decimal n
format_int (negsuc n) = b'-' ∷ decimal (suc n)

digits_value-digits :
    (fuel n : ℕ) (rest : Bytes)
    → n < 10 ^ fuel
    → digits_value 0 (digits fuel n rest) ≡ digits_value n rest
unfolding digits digits_value
digits_value-digits zero n rest h = ap (λ t. digits_value t rest) (omega arith)
digits_value-digits (suc fuel) n rest h = elim (Bool-cases (ltb n 10)) [
  | inl e ↦ rw (e) (ap (λ t. digits_value t rest) (ground arith))
  | inr e ↦ rw (e) (
      digits_value-digits fuel (n / 10) ((b'0' + n % 10) ∷ rest) (less_digits fuel n h)
      ∙ ap (λ t. digits_value t rest) (omega arith))
]
  where
    less_digits : (f m : ℕ) → m < 10 ^ suc f → m / 10 < 10 ^ f
    less_digits f m h = omega (arith, pow-suc 10 f)

all-digits :
    (fuel n : ℕ) (rest : Bytes)
    → all is_digit rest ≡ true
    → all is_digit (digits fuel n rest) ≡ true
unfolding digits
all-digits zero n rest h = h
all-digits (suc fuel) n rest h =
    let here : is_digit (b'0' + n % 10) ≡ true = ground arith in
    let step : all is_digit ((b'0' + n % 10) ∷ rest) ≡ true = rw (here, h) in
    elim (Bool-cases (ltb n 10)) [
      | inl e ↦ rw (e) step
      | inr e ↦ rw (e) (all-digits fuel (n / 10) ((b'0' + n % 10) ∷ rest) step)
    ]

digits_nonempty :
    (fuel n : ℕ) (rest : Bytes) → is_empty rest ≡ false → is_empty (digits fuel n rest) ≡ false
unfolding digits
digits_nonempty zero n rest h = h
digits_nonempty (suc fuel) n rest h = elim (Bool-cases (ltb n 10)) [
  | inl e ↦ rw (e) refl
  | inr e ↦ rw (e) (digits_nonempty fuel (n / 10) ((b'0' + n % 10) ∷ rest) refl)
]

-- More fuel than none gives a digit.
digits_some : (fuel n : ℕ) → is_empty (digits (suc fuel) n []) ≡ false
unfolding digits
digits_some fuel n = elim (Bool-cases (ltb n 10)) [
  | inl e ↦ rw (e) refl
  | inr e ↦ rw (e) (digits_nonempty fuel (n / 10) ((b'0' + n % 10) ∷ []) refl)
]

pub all_digits-decimal : (n : ℕ) → all_digits (decimal n) ≡ true
unfolding all_digits
all_digits-decimal n = rw (some_digit, only_digits) refl
  where
    some_digit : is_empty (decimal n) ≡ false
    some_digit = unfold decimal in digits_some 19 n

    only_digits : all is_digit (decimal n) ≡ true
    only_digits = unfold decimal in all-digits 20 n [] refl

pub digits_value-decimal : (n : ℕ) → n ≤ 2 ^ 63 → digits_value 0 (decimal n) ≡ n
unfolding digits_value
digits_value-decimal n h = unfold decimal in digits_value-digits 20 n [] (omega arith)

ranged :
    (s : Bytes) (n : ℕ) (neg : Bool)
    → all_digits s ≡ true
    → digits_value 0 s ≡ n
    → signed_in_range 64 neg s ≡ (
        if neg
        then (if leb n (2 ^ 63) then some (negate (pos n)) else none)
        else if ltb n (2 ^ 63)
        then some (pos n)
        else none)
ranged s n neg d v = rw (d, v) refl

unsigned : (s : Bytes) → all_digits s ≡ true → parse_int 64 s ≡ signed_in_range 64 false s
unfolding parse_int all_digits
unsigned [] e = cc
unsigned (c ∷ s) e =
    let d : is_digit c ≡ true = ground arith in
    let m : (c == b'-') ≡ false = ground arith in
    let p : (c == b'+') ≡ false = ground arith in rw (m, p) refl

-- `ParseInt` reads what `FormatInt` writes, for every `int64`.
pub parse_int-format_int :
    (x : ℤ) → pos_part x < 2 ^ 63 → neg_part x ≤ 2 ^ 63 → parse_int 64 (format_int x) ≡ some x
unfolding format_int
parse_int-format_int (pos n) h k =
    unsigned (decimal n) (all_digits-decimal n)
    ∙ ranged (decimal n) n false (all_digits-decimal n) (digits_value-decimal n (omega arith))
    ∙ ground arith
parse_int-format_int (negsuc n) h k =
    signed (decimal (suc n))
    ∙ ranged (decimal (suc n)) (suc n) true (all_digits-decimal (suc n))
        (digits_value-decimal (suc n) k)
    ∙ ground arith
  where
    signed : (s : Bytes) → parse_int 64 (b'-' ∷ s) ≡ signed_in_range 64 true s
    signed s = unfold parse_int in refl
