-- ===== src/Sigv4/Authorization/Wrapping.antt =====
-- pkg/sigv4/parse.go: an expiry whose nanoseconds do not fit into 64 bits.
use bluebottle.Prelude.{
  ℕ, ◌-◌, ◌*◌, ◌%◌, ◌^◌, ◌≤◌, ◌<◌, ◌≡◌, ap, ◌∙◌, true, false, some, arith, ◌==◌, codes, ltb,
  if◌then◌else◌, ok,
}
use bluebottle.Prelude.Int.{ℤ, pos, negsuc}
use bluebottle.Strings.Decimal.{parse_int}
use bluebottle.Safecast.{int64}
use bluebottle.Sigv4.Requests.{Runtime, max_presign_age, Request, get}
use bluebottle.Sigv4.Authorization.{
  in_seconds, read_timestamp, check_expires, check_window, parse_timestamp,
}
use bluebottle.Sigv4.Authorization.Windows.{check_age_complete}

in_seconds-wrapped :
    (n : ℕ)
    → (n * 1000000000) % 2 ^ 64 ≤ max_presign_age
    → in_seconds n ≡ pos ((n * 1000000000) % 2 ^ 64)
unfolding in_seconds int64
in_seconds-wrapped n h = small ((n * 1000000000) % 2 ^ 64) h
  where
    small :
        (m : ℕ)
        → m ≤ max_presign_age
        → (if ltb m (2 ^ 63) then pos m else negsuc (2 ^ 64 - 1 - m)) ≡ pos m
    small m h = ground arith

-- An X-Amz-Expires above the maximum of seven days is not refused when its nanoseconds, which wrap at
-- 64 bits, come to seven days or less: a URL with it is accepted at the very time that it states.
pub parse_timestamp-wraps :
    (rt : Runtime) (req : Request) (now : ℤ) (n : ℕ)
    → parse_int 64 (get (codes "X-Amz-Expires") req.query) ≡ some (pos n)
    → max_presign_age < n * 1000000000
    → (n * 1000000000) % 2 ^ 64 ≤ max_presign_age
    → read_timestamp rt req true ≡ ok now
    → parse_timestamp rt req true now ≡ ok now
unfolding parse_timestamp check_window check_expires
parse_timestamp-wraps rt req now n e h k r =
    let zero_test : (n == 0) ≡ false = ground arith in
    let m = (n * 1000000000) % 2 ^ 64 in
    let age : check_expires (some (pos n)) now now ≡ ok now =
      rw (zero_test, in_seconds-wrapped n k)
        (check_age_complete m now now k (omega arith) (omega arith)) in
    ap (check_window req true now) r ∙ ap (λ x. check_expires x now now) e ∙ age
