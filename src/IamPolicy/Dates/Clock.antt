-- ===== src/IamPolicy/Dates/Clock.antt =====
-- pkg/iampolicy/dates.go: the server clock in the request, as date conditions read it.
use bluebottle.Prelude.{
  leb, ℕ, suc, ◌*◌, ◌/◌, ◌<◌, ◌-◌, ◌+◌, ◌%◌, ap, ◌∙◌, codes, if◌then◌else◌, ◌≤◌, ◌≡◌, refl, Bool,
  true, false, ◌&&◌, all, ◌^◌, ◌||◌, Option, none, some, [], ◌∷◌, Bytes, eqb, ◌==◌, arith,
}
use bluebottle.Prelude.Int.{ℤ, negate, pos, negsuc, pos_part, neg_part, ltb_ℤ, ◌≤ℤ◌}
use bluebottle.Strings.{Platform, has_byte}
use bluebottle.Strings.Decimal.{
  is_digit, all_digits, format_int, decimal, all_digits-decimal, parse_int-format_int,
}
use bluebottle.IamPolicy.Variables.{ConditionKeys}
use bluebottle.IamPolicy.Dates.{
  min_epoch_seconds, max_epoch_seconds, unix_instant, trim_minus, parse_layouts, parse_date,
  current_time_layout, unix_seconds, set_request_time,
}

-- What a date condition reads under a key.
abbrev pub date_at : Platform → ConditionKeys → Bytes → Option ℤ
date_at lib keys key = elim (keys key) [ none ↦ none | some s ↦ parse_date lib s ]

-- A text of the form of another, whose zeros stand for any digit.
abbrev pub has_form : Bytes → Bytes → Bool
has_form [] [] = true
has_form [] (c ∷ s) = false
has_form (f ∷ form) [] = false
has_form (f ∷ form) (c ∷ s) =
    (if f == b'0' then leb b'0' c && leb c b'9' else c == f) && has_form form s

-- A time in nanoseconds, rounded down to a second.
abbrev pub whole_second : ℤ → ℤ
whole_second (pos n) = pos (n - n % 1000000000)
whole_second (negsuc n) = negsuc (n + (999999999 - n % 1000000000))

-- What `Format` writes with seconds and a `Z`, and how `Parse` reads it: as RFC 3339, to the second, and in
-- no layout without seconds.
pub record IsClock (lib : Platform) (format_time : Bytes → ℤ → Bytes) (now : ℤ) : Type 0 where
  pub form :
      has_form (codes "0000-00-00T00:00:00Z") (format_time (codes "2006-01-02T15:04:05Z") now)
      ≡ true
  pub month :
      lib.parse_time (codes "2006-01") (format_time (codes "2006-01-02T15:04:05Z") now) ≡ none
  pub day :
      lib.parse_time (codes "2006-01-02") (format_time (codes "2006-01-02T15:04:05Z") now) ≡ none
  pub minute :
      lib.parse_time
        (codes "2006-01-02T15:04Z07:00")
        (format_time (codes "2006-01-02T15:04:05Z") now)
      ≡ none
  pub second :
      lib.parse_time
        (codes "2006-01-02T15:04:05Z07:00")
        (format_time (codes "2006-01-02T15:04:05Z") now)
      ≡ some (whole_second now)

negate-pos : (m k : ℕ) → m ≡ suc k → negate (pos m) ≡ negsuc k
negate-pos m k h = ground (arith, h)

unix_instant-unix_seconds : (t : ℤ) → unix_instant (unix_seconds t) ≡ whole_second t
unix_instant-unix_seconds (pos n) = ap pos (omega arith)
unix_instant-unix_seconds (negsuc n) =
    negate-pos (suc (n / 1000000000) * 1000000000) (n + (999999999 - n % 1000000000)) (omega arith)

has_form-has_byte :
    (form s : Bytes) → has_form form s ≡ true → has_byte form b',' ≡ false → has_byte s b',' ≡ false
has_form-has_byte [] [] h k = refl
has_form-has_byte [] (c ∷ s) h k = ground arith
has_form-has_byte (f ∷ form) [] h k = ground arith
has_form-has_byte (f ∷ form) (c ∷ s) h k =
    let ih = has_form-has_byte form s in
    step (has_form form s) (has_byte form b',') (has_byte s b',') ih h k
  where
    step :
        (a b d : Bool)
        → (a ≡ true → b ≡ false → d ≡ false)
        → ((if f == b'0' then leb b'0' c && leb c b'9' else c == f) && a) ≡ true
        → ((f == b',') || b) ≡ false
        → ((c == b',') || d) ≡ false
    step a b d ih h k = ground arith

has_form-is_digit :
    (form s : Bytes) → has_form form s ≡ true → all is_digit form ≡ false → all is_digit s ≡ false
has_form-is_digit [] [] h k = k
has_form-is_digit [] (c ∷ s) h k = ground arith
has_form-is_digit (f ∷ form) [] h k = ground arith
has_form-is_digit (f ∷ form) (c ∷ s) h k =
    let ih = has_form-is_digit form s in
    step (has_form form s) (all is_digit form) (all is_digit s) ih h k
  where
    step :
        (a b d : Bool)
        → (a ≡ true → b ≡ false → d ≡ false)
        → ((if f == b'0' then leb b'0' c && leb c b'9' else c == f) && a) ≡ true
        → (is_digit f && b) ≡ false
        → (is_digit c && d) ≡ false
    step a b d ih h k = ground arith

-- A time does not begin with a minus, and is no number.
all_digits-has_form :
    (s : Bytes)
    → has_form (codes "0000-00-00T00:00:00Z") s ≡ true
    → all_digits (trim_minus s) ≡ false
all_digits-has_form [] h = ground arith
all_digits-has_form (c ∷ s) h =
    let d : all is_digit (c ∷ s) ≡ false =
      has_form-is_digit (codes "0000-00-00T00:00:00Z") (c ∷ s) h refl in
    let m : (c == b'-') ≡ false = first (has_form (codes "000-00-00T00:00:00Z") s) h in
    unfold all_digits in rw (m, d) refl
  where
    first : (a : Bool) → ((leb b'0' c && leb c b'9') && a) ≡ true → (c == b'-') ≡ false
    first a k = ground arith

trim_minus-format_int : (x : ℤ) → all_digits (trim_minus (format_int x)) ≡ true
unfolding format_int
trim_minus-format_int (negsuc n) = all_digits-decimal (suc n)
trim_minus-format_int (pos n) = without (decimal n) (all_digits-decimal n)
  where
    without : (s : Bytes) → all_digits s ≡ true → all_digits (trim_minus s) ≡ true
    without [] h = h
    without (c ∷ s) h =
        let first : is_digit c ≡ true =
          unfold all_digits in digit_of (is_digit c) (all is_digit s) h in
        let m : (c == b'-') ≡ false = ground (arith, first) in rw (m) h
      where
        digit_of : (a b : Bool) → (a && b) ≡ true → a ≡ true
        digit_of a b k = ground arith

int64_range :
    (secs : ℤ)
    → min_epoch_seconds ≤ℤ secs
    → secs ≤ℤ max_epoch_seconds
    → (pos_part secs < 2 ^ 63) × (neg_part secs ≤ 2 ^ 63)
int64_range (pos n) l u = (omega (arith, u), omega arith)
int64_range (negsuc n) l u = (omega arith, omega (arith, l))

parse_date-format_int :
    (lib : Platform) (secs : ℤ)
    → min_epoch_seconds ≤ℤ secs
    → secs ≤ℤ max_epoch_seconds
    → parse_date lib (format_int secs) ≡ some (unix_instant secs)
unfolding parse_date
parse_date-format_int lib secs l u =
    let d = trim_minus-format_int secs in
    let (a, b) = int64_range secs l u in
    let p = parse_int-format_int secs a b in
    let r : (ltb_ℤ secs min_epoch_seconds || ltb_ℤ max_epoch_seconds secs) ≡ false =
      ground (arith, l, u) in
    rw (d, p, r) refl

seconds_range :
    (now : ℤ)
    → negsuc 62135596799999999999 ≤ℤ now
    → now ≤ℤ pos 253402300799999999999
    → (min_epoch_seconds ≤ℤ unix_seconds now) × (unix_seconds now ≤ℤ max_epoch_seconds)
seconds_range (pos n) l u = (omega arith, omega (arith, u))
seconds_range (negsuc n) l u = (omega (arith, l), omega arith)

parse_date-format_time :
    (lib : Platform) (format_time : Bytes → ℤ → Bytes) (now : ℤ)
    → IsClock lib format_time now
    → parse_date lib (format_time current_time_layout now) ≡ some (whole_second now)
unfolding parse_date parse_layouts
parse_date-format_time lib format_time now t =
    let text = format_time (codes "2006-01-02T15:04:05Z") now in
    let d = all_digits-has_form text t.form in
    let c = has_form-has_byte (codes "0000-00-00T00:00:00Z") text t.form refl in
    rw (d, c, t.month, t.day, t.minute, t.second) refl

-- After `SetRequestTime` both keys are read by `ParseDate` as the same instant, the time rounded down to
-- a second, for a time of the years 1 to 9999, if `Format` writes the layout `2006-01-02T15:04:05Z` as
-- digits in that form, and `Parse` reads the text as RFC 3339 to the second and in no layout without
-- seconds; every other key is as it was.
pub set_request_time-date_at :
    (lib : Platform) (format_time : Bytes → ℤ → Bytes) (now : ℤ) (keys : ConditionKeys)
    (other : Bytes)
    → negsuc 62135596799999999999 ≤ℤ now
    → now ≤ℤ pos 253402300799999999999
    → IsClock lib format_time now
    → eqb other (codes "aws:CurrentTime") ≡ false
    → eqb other (codes "aws:EpochTime") ≡ false
    → (date_at lib (set_request_time format_time now keys) (codes "aws:CurrentTime")
        ≡ some (whole_second now))
      × (date_at lib (set_request_time format_time now keys) (codes "aws:EpochTime")
          ≡ some (whole_second now))
      × (set_request_time format_time now keys other ≡ keys other)
unfolding set_request_time
set_request_time-date_at lib format_time now keys other l u t c e =
    let (least, most) = seconds_range now l u in
    (
      parse_date-format_time lib format_time now t,
      parse_date-format_int lib (unix_seconds now) least most
          ∙ ap some (unix_instant-unix_seconds now),
      rw (e, c) refl,
    )
