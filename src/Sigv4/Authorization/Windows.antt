-- ===== src/Sigv4/Authorization/Windows.antt =====
-- pkg/sigv4/parse.go: the validity window of a request's time.
use bluebottle.Prelude.{
  ℕ, ◌+◌, ◌*◌, ◌≤◌, ◌<◌, ◌≡◌, refl, sym, ap, subst, ◌∙◌, Bool, true, false, ◌||◌, ◌&&◌, not, ◌↔◌,
  Option, none, some, arith, ◌==◌, codes, leb, if◌then◌else◌, Bool-cases, inl, inr, Result, err, ok,
}
use bluebottle.Prelude.Int.{ℤ, pos, negsuc, pos_part, neg_part, sub_ℕ, ◌-ℤ◌, negate, ltb_ℤ}
use bluebottle.Strings.Decimal.{parse_int}
use bluebottle.Safecast.{int64, max_int64}
use bluebottle.Sigv4.Requests.{
  Runtime, max_clock_skew, max_presign_age, AuthError, malformed_presigned_url,
  request_time_too_skewed, presigned_url_expired, Request, get,
}
use bluebottle.Sigv4.Authorization.{
  saturate, sub_time, abs_duration, in_seconds, read_timestamp, check_age, check_expires,
  check_skew, check_window, parse_timestamp,
}

-- `now` is at most `n` nanoseconds after `t`.
abbrev pub Within : ℕ → ℤ → ℤ → Type 0
Within n now t = pos_part now + neg_part t ≤ n + (neg_part now + pos_part t)

abbrev within : ℕ → ℤ → ℤ → Bool
within n now t = leb (pos_part now + neg_part t) (n + (neg_part now + pos_part t))

-- A bound far below the range of a duration sees through the saturation of a difference.
above : (a b n : ℕ) → n < max_int64 → ltb_ℤ (pos n) (saturate (sub_ℕ a b)) ≡ not (leb a (n + b))
unfolding saturate
above a b n h = elim (Bool-cases (leb b a)) [
  | inl e ↦ rw (e) (ground arith)
  | inr e ↦ rw (e) (ground arith)
]

below :
    (a b n : ℕ)
    → n < max_int64
    → ltb_ℤ (saturate (sub_ℕ a b)) (negate (pos n)) ≡ not (leb b (n + a))
unfolding saturate
below a b n h = elim (Bool-cases (leb b a)) [
  | inl e ↦ rw (e) (ground arith)
  | inr e ↦ rw (e) (ground arith)
]

absolute :
    (a b n : ℕ)
    → n < max_int64
    → ltb_ℤ (pos n) (abs_duration (saturate (sub_ℕ a b))) ≡ not (leb a (n + b) && leb b (n + a))
unfolding saturate abs_duration
absolute a b n h = elim (Bool-cases (leb b a)) [
  | inl e ↦ rw (e) (ground arith)
  | inr e ↦ rw (e) (ground arith)
]

check_skew_sound :
    (now ts t : ℤ)
    → check_skew now ts ≡ ok t
    → (ts ≡ t) × Within max_clock_skew t now × Within max_clock_skew now t
unfolding check_skew sub_time ◌-ℤ◌
check_skew_sound now ts t h =
    let a = pos_part now + neg_part ts in
    let b = neg_part now + pos_part ts in
    let e = absolute a b max_clock_skew (omega arith) in
    let (k, same) = guard (ltb_ℤ (pos max_clock_skew) (abs_duration (saturate (sub_ℕ a b)))) h in
    let w : Within max_clock_skew ts now × Within max_clock_skew now ts = ground (arith, e, k) in
    (
      same,
      subst (λ x. Within max_clock_skew x now) same w.0,
      subst (Within max_clock_skew now) same w.1,
    )
  where
    guard :
        (b : Bool)
        → (if b then err request_time_too_skewed else ok ts) ≡ ok t
        → (b ≡ false) × (ts ≡ t)
    guard true g = cc
    guard false g = (refl, cc)

-- The two tests of `check_age`, and what they leave.
age_guards :
    (b c d : Bool) (ts t : ℤ)
    → (if b
        then err malformed_presigned_url
        else if c || d
        then err presigned_url_expired
        else ok ts)
      ≡ ok t
    → (b ≡ false) × (c ≡ false) × (d ≡ false) × (ts ≡ t)
age_guards true c d ts t g = cc
age_guards false true d ts t g = cc
age_guards false false true ts t g = cc
age_guards false false false ts t g = (refl, refl, refl, cc)

not_above :
    (age since : ℤ) (m : ℕ)
    → ltb_ℤ (pos m) age ≡ false
    → ltb_ℤ age since ≡ false
    → ltb_ℤ (pos m) since ≡ false
not_above age since m h k = ground arith

check_age_sound :
    (age now ts t : ℤ)
    → check_age age now ts ≡ ok t
    → (ts ≡ t) × Within max_clock_skew t now × Within max_presign_age now t
unfolding check_age sub_time ◌-ℤ◌
check_age_sound age now ts t h =
    let a = pos_part now + neg_part ts in
    let b = neg_part now + pos_part ts in
    let since = saturate (sub_ℕ a b) in
    let (k, l, m, same) =
      age_guards (ltb_ℤ (pos max_presign_age) age) (ltb_ℤ since (negate (pos max_clock_skew)))
        (ltb_ℤ age since) ts t h in
    let e = above a b max_presign_age (omega arith) in
    let f = below a b max_clock_skew (omega arith) in
    let bounded = not_above age since max_presign_age k m in
    let w : Within max_clock_skew ts now × Within max_presign_age now ts =
      ground (arith, e, f, l, bounded) in
    (
      same,
      subst (λ x. Within max_clock_skew x now) same w.0,
      subst (Within max_presign_age now) same w.1,
    )

pub check_age_complete :
    (m : ℕ) (now ts : ℤ)
    → m ≤ max_presign_age
    → Within max_clock_skew ts now
    → Within m now ts
    → check_age (pos m) now ts ≡ ok ts
unfolding check_age sub_time ◌-ℤ◌
check_age_complete m now ts h u v =
    let a = pos_part now + neg_part ts in
    let b = neg_part now + pos_part ts in
    let e = above a b m (omega arith) in
    let f = below a b max_clock_skew (omega arith) in
    let k : ltb_ℤ (pos max_presign_age) (pos m) ≡ false = ground arith in
    let p : ltb_ℤ (pos m) (saturate (sub_ℕ a b)) ≡ false = ground (arith, e) in
    let q : ltb_ℤ (saturate (sub_ℕ a b)) (negate (pos max_clock_skew)) ≡ false =
      ground (arith, f) in
    rw (k, q, p) refl

check_age-Within :
    (m : ℕ) (now ts t : ℤ) → m ≤ max_presign_age → check_age (pos m) now ts ≡ ok t → Within m now ts
unfolding check_age sub_time ◌-ℤ◌
check_age-Within m now ts t u h =
    let a = pos_part now + neg_part ts in
    let b = neg_part now + pos_part ts in
    let since = saturate (sub_ℕ a b) in
    let (k, l, d, same) =
      age_guards (ltb_ℤ (pos max_presign_age) (pos m)) (ltb_ℤ since (negate (pos max_clock_skew)))
        (ltb_ℤ (pos m) since) ts t h in
    let e = above a b m (omega arith) in ground (arith, e, d)

in_seconds-exact : (n : ℕ) → n * 1000000000 ≤ max_presign_age → in_seconds n ≡ pos (n * 1000000000)
unfolding in_seconds int64
in_seconds-exact n h = ground arith

check_expires_sound :
    (expires : Option ℤ) (now ts t : ℤ)
    → check_expires expires now ts ≡ ok t
    → (ts ≡ t) × Within max_clock_skew t now × Within max_presign_age now t
unfolding check_expires
check_expires_sound none now ts t h = cc
check_expires_sound (some (negsuc n)) now ts t h = cc
check_expires_sound (some (pos n)) now ts t h =
    check_age_sound (in_seconds n) now ts t (guard (n == 0) h)
  where
    guard :
        (b : Bool)
        → (if b then err malformed_presigned_url else check_age (in_seconds n) now ts) ≡ ok t
        → check_age (in_seconds n) now ts ≡ ok t
    guard true g = cc
    guard false g = g

-- The time of an accepted request is the one that it states, at most 15 minutes ahead of the clock,
-- and at most 15 minutes behind it, or seven days for a presigned URL, whatever expiry this asks for.
pub parse_timestamp-Within :
    (rt : Runtime) (req : Request) (presigned : Bool) (now ts : ℤ)
    → parse_timestamp rt req presigned now ≡ ok ts
    → (read_timestamp rt req presigned ≡ ok ts)
      × Within max_clock_skew ts now
      × Within (if presigned then max_presign_age else max_clock_skew) now ts
unfolding parse_timestamp check_window
parse_timestamp-Within rt req presigned now ts h =
    given (read_timestamp rt req presigned) presigned refl h
  where
    given :
        (r : Result AuthError ℤ) (p : Bool)
        → read_timestamp rt req presigned ≡ r
        → check_window req p now r ≡ ok ts
        → (read_timestamp rt req presigned ≡ ok ts)
          × Within max_clock_skew ts now
          × Within (if p then max_presign_age else max_clock_skew) now ts
    given (err e) p q g = cc
    given (ok t) true q g =
        let (same, u, v) =
          check_expires_sound (parse_int 64 (get (codes "X-Amz-Expires") req.query)) now t ts g in
        (q ∙ ap ok same, u, v)
    given (ok t) false q g =
        let (same, u, v) = check_skew_sound now t ts g in (q ∙ ap ok same, u, v)

-- A presigned URL with an expiry of one second to seven days is accepted exactly when its time is read,
-- and the clock is at most 15 minutes before it and at most the expiry after it.
pub parse_timestamp-presigned_iff :
    (rt : Runtime) (req : Request) (now ts : ℤ) (n : ℕ)
    → parse_int 64 (get (codes "X-Amz-Expires") req.query) ≡ some (pos n)
    → 1 ≤ n
    → n * 1000000000 ≤ max_presign_age
    → (parse_timestamp rt req true now ≡ ok ts) ↔ (
        (read_timestamp rt req true ≡ ok ts)
        × Within max_clock_skew ts now
        × Within (n * 1000000000) now ts)
unfolding parse_timestamp check_window
parse_timestamp-presigned_iff rt req now ts n e l u = (
  λ h.
      let (q, w, v) = parse_timestamp-Within rt req true now ts (unfold parse_timestamp in h) in
      (
        q,
        w,
        check_age-Within (n * 1000000000) now ts ts u
            (sym opened ∙ sym (ap (check_window req true now) q) ∙ h),
      ),
  λ (q, w, v).
      ap (check_window req true now) q ∙ opened ∙ check_age_complete (n * 1000000000) now ts u w v,
)
  where
    zero_test : (n == 0) ≡ false
    zero_test = ground arith

    opened :
        check_expires (parse_int 64 (get (codes "X-Amz-Expires") req.query)) now ts
        ≡ check_age (pos (n * 1000000000)) now ts
    opened = ap (λ x. check_expires x now ts) e ∙ positive
      where
        positive : check_expires (some (pos n)) now ts ≡ check_age (pos (n * 1000000000)) now ts
        positive = unfold check_expires in rw (zero_test, in_seconds-exact n u) refl
