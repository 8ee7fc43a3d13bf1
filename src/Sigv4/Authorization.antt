-- ===== src/Sigv4/Authorization.antt =====
-- pkg/sigv4/parse.go: where the signature is found, the time of the request and the credential scope.
use bluebottle.Prelude.{
  ℕ, ◌+◌, ◌*◌, ◌%◌, ◌^◌, Bool, true, false, ◌&&◌, ◌||◌, not, Option, none, some, List, [], ◌∷◌,
  Bytes, codes, eqb, ◌==◌, is_empty, if◌then◌else◌, Result, err, ok,
}
use bluebottle.Prelude.Int.{ℤ, pos, negsuc, ◌-ℤ◌, negate, ltb_ℤ}
use bluebottle.Strings.{cut_byte, cut_prefix}
use bluebottle.Strings.Decimal.{parse_int}
use bluebottle.Strings.Splitting.{split_byte}
use bluebottle.Safecast.{int64, max_int64}
use bluebottle.Sigv4.Requests.{
  Runtime, trim, amz_time_format, amz_date_format, amz_scope_terminator, max_clock_skew,
  max_presign_age, algorithm_v4, AuthError, missing_authentication, unsupported_algorithm,
  malformed_authorization, malformed_presigned_url, request_time_invalid, request_time_too_skewed,
  presigned_url_expired, Request, Values, get, ScopedCredential,
}
pub mod Windows
pub mod Wrapping
pub mod Scopes

pub record AuthComponents : Type 0 where
  pub presigned : Bool
  pub algorithm : Bytes
  pub credential : Bytes
  pub signed_headers : Bytes
  pub signature : Bytes

-- The end of `getAuthComponents`.
unfoldable pub check_algorithm : AuthComponents → Result AuthError AuthComponents
check_algorithm a = if not (eqb a.algorithm algorithm_v4) then err unsupported_algorithm else ok a

unfoldable pub presigned_components : Values → Result AuthError AuthComponents
unfolding get check_algorithm
presigned_components query =
    let credential = get (codes "X-Amz-Credential") query in
    let signed_headers = get (codes "X-Amz-SignedHeaders") query in
    let signature = get (codes "X-Amz-Signature") query in
    if is_empty credential || is_empty signed_headers || is_empty signature
    then err malformed_presigned_url
    else check_algorithm (record {
      presigned = true;
      algorithm = get (codes "X-Amz-Algorithm") query;
      credential = credential;
      signed_headers = signed_headers;
      signature = signature;
    })

abbrev pub header_fields :
    Bytes → Option Bytes → Option Bytes → Option Bytes → Result AuthError AuthComponents
header_fields algorithm (some credential) (some signed_headers) (some signature) =
    check_algorithm (record {
      presigned = false;
      algorithm = algorithm;
      credential = credential;
      signed_headers = signed_headers;
      signature = signature;
    })
header_fields algorithm _ _ _ = err malformed_authorization

-- The three parts of the header behind the algorithm.
unfoldable pub header_parts : Runtime → Bytes → List Bytes → Result AuthError AuthComponents
unfolding cut_prefix trim check_algorithm
header_parts rt algorithm (a ∷ b ∷ c ∷ []) =
    header_fields algorithm (cut_prefix (trim rt a) (codes "Credential="))
      (cut_prefix (trim rt b) (codes "SignedHeaders="))
      (cut_prefix (trim rt c) (codes "Signature="))
header_parts rt algorithm parts = err malformed_authorization

unfoldable pub header_components : Runtime → Bytes → Result AuthError AuthComponents
unfolding cut_byte split_byte header_parts
header_components rt auth =
    if is_empty auth then err missing_authentication else elim (cut_byte b' ' auth) [
      | none ↦ err malformed_authorization
      | some (algorithm, remainder) ↦ header_parts rt algorithm (split_byte b',' remainder)
    ]

unfoldable pub get_auth_components : Runtime → Request → Result AuthError AuthComponents
unfolding get presigned_components header_components
get_auth_components rt req =
    let auth = get (codes "Authorization") req.headers in
    if is_empty auth && not (is_empty (get (codes "X-Amz-Algorithm") req.query))
    then presigned_components req.query
    else header_components rt auth

-- A `time.Duration` out of range is the nearest one in range: `Time.Sub`.
unfoldable pub saturate : ℤ → ℤ
saturate x =
    if ltb_ℤ (pos max_int64) x
    then pos max_int64
    else if ltb_ℤ x (negsuc max_int64)
    then negsuc max_int64
    else x

unfoldable pub sub_time : ℤ → ℤ → ℤ
unfolding ◌-ℤ◌ saturate
sub_time now ts = saturate (now -ℤ ts)

-- `Duration.Abs`
unfoldable pub abs_duration : ℤ → ℤ
abs_duration (pos n) = pos n
abs_duration (negsuc n) =
    if ltb_ℤ (negsuc n) (negate (pos max_int64)) then pos max_int64 else negate (negsuc n)

-- `time.Duration(expires) * time.Second`, which wraps.
unfoldable pub in_seconds : ℕ → ℤ
unfolding int64
in_seconds n = int64 ((n * 1000000000) % 2 ^ 64)

abbrev pub time_or : AuthError → Option ℤ → Result AuthError ℤ
time_or e none = err e
time_or e (some t) = ok t

unfoldable pub read_timestamp : Runtime → Request → Bool → Result AuthError ℤ
unfolding get
read_timestamp rt req presigned =
    let date_hdr = get (codes "X-Amz-Date") req.headers in
    if presigned
    then time_or malformed_presigned_url
        (rt.platform.parse_time amz_time_format (get (codes "X-Amz-Date") req.query))
    else if not (is_empty date_hdr)
    then time_or request_time_invalid (rt.platform.parse_time amz_time_format date_hdr)
    else time_or request_time_invalid (rt.parse_http_time (get (codes "Date") req.headers))

unfoldable pub check_age : ℤ → ℤ → ℤ → Result AuthError ℤ
unfolding sub_time
check_age age now ts =
    if ltb_ℤ (pos max_presign_age) age
    then err malformed_presigned_url
    else if ltb_ℤ (sub_time now ts) (negate (pos max_clock_skew)) || ltb_ℤ age (sub_time now ts)
    then err presigned_url_expired
    else ok ts

-- The window of a presigned URL, from `strconv.Atoi` of X-Amz-Expires.
unfoldable pub check_expires : Option ℤ → ℤ → ℤ → Result AuthError ℤ
unfolding check_age in_seconds
check_expires none now ts = err malformed_presigned_url
check_expires (some (negsuc n)) now ts = err malformed_presigned_url
check_expires (some (pos n)) now ts =
    if n == 0 then err malformed_presigned_url else check_age (in_seconds n) now ts

unfoldable pub check_skew : ℤ → ℤ → Result AuthError ℤ
unfolding sub_time abs_duration
check_skew now ts =
    if ltb_ℤ (pos max_clock_skew) (abs_duration (sub_time now ts))
    then err request_time_too_skewed
    else ok ts

unfoldable pub check_window : Request → Bool → ℤ → Result AuthError ℤ → Result AuthError ℤ
unfolding get parse_int check_expires check_skew
check_window req presigned now (err e) = err e
check_window req presigned now (ok ts) =
    if presigned
    then check_expires (parse_int 64 (get (codes "X-Amz-Expires") req.query)) now ts
    else check_skew now ts

unfoldable pub parse_timestamp : Runtime → Request → Bool → ℤ → Result AuthError ℤ
unfolding read_timestamp check_window
parse_timestamp rt req presigned now =
    check_window req presigned now (read_timestamp rt req presigned)

-- The parts of the credential scope.
unfoldable pub scope_parts : Runtime → ℤ → List Bytes → Result AuthError ScopedCredential
scope_parts rt t (access_key_id ∷ date ∷ region ∷ service ∷ terminator ∷ []) =
    elim (rt.platform.parse_time amz_date_format date) [
      | none ↦ err malformed_authorization
      | some day ↦
          if not (eqb date (rt.format_time amz_date_format t))
          then err malformed_authorization
          else if not (eqb terminator amz_scope_terminator)
          then err malformed_authorization
          else ok (record {
            access_key_id = access_key_id;
            date = date;
            region = region;
            service = service;
          })
    ]
scope_parts rt t parts = err malformed_authorization

unfoldable pub parse_credential : Runtime → Bytes → ℤ → Result AuthError ScopedCredential
unfolding split_byte scope_parts
parse_credential rt credential t = scope_parts rt t (split_byte b'/' credential)
