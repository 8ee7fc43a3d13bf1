-- ===== src/Sigv4/Requests.antt =====
-- pkg/sigv4/sigv4.go: the types and constants of the package, and what it uses of the standard library
-- and of smithy-go's `httpbinding`, which is a parameter.
use bluebottle.Prelude.{ℕ, Option, List, [], ◌∷◌, Bytes, codes, eqb, if◌then◌else◌}
use bluebottle.Prelude.Int.{ℤ}
use bluebottle.Strings.{Platform, is_ascii}
use bluebottle.Strings.Spaces.{trim_space, trim_left, trim_right, fields}
use bluebottle.Sigv4.Payload.{ReadError, VerifiedBody}

-- `escape_path` is `httpbinding.EscapePath(s, true)`; times are instants in nanoseconds from the Unix
-- epoch, formatted in UTC; `wide_trim` and `wide_fields` treat texts with bytes above 127.
pub record Runtime : Type 0 where
  pub platform : Platform
  pub format_time : Bytes → ℤ → Bytes
  pub parse_http_time : Bytes → Option ℤ
  pub wide_trim : Bytes → Bytes
  pub wide_fields : Bytes → List Bytes
  pub escape_path : Bytes → Bytes
  pub sha256 : Bytes → Bytes
  pub hmac : Bytes → Bytes → Bytes

-- `strings.TrimSpace` and `strings.Fields`
unfoldable pub trim : Runtime → Bytes → Bytes
unfolding is_ascii trim_left trim_right
trim rt s = if is_ascii s then trim_space s else rt.wide_trim s

unfoldable pub words : Runtime → Bytes → List Bytes
unfolding is_ascii fields
words rt s = if is_ascii s then fields s else rt.wide_fields s

abbrev pub amz_time_format : Bytes
amz_time_format = codes "20060102T150405Z"

abbrev pub amz_date_format : Bytes
amz_date_format = codes "20060102"

abbrev pub amz_scope_terminator : Bytes
amz_scope_terminator = codes "aws4_request"

abbrev pub max_payload_len : ℕ
max_payload_len = 10485760

-- 15 minutes and 7 days, in nanoseconds.
abbrev pub max_clock_skew : ℕ
max_clock_skew = 900000000000

abbrev pub max_presign_age : ℕ
max_presign_age = 604800000000000

abbrev pub unsigned_payload : Bytes
unsigned_payload = codes "UNSIGNED-PAYLOAD"

abbrev pub streaming_signed : Bytes
streaming_signed = codes "STREAMING-AWS4-HMAC-SHA256-PAYLOAD"

abbrev pub streaming_signed_trailer : Bytes
streaming_signed_trailer = codes "STREAMING-AWS4-HMAC-SHA256-PAYLOAD-TRAILER"

abbrev pub streaming_unsigned_trailer : Bytes
streaming_unsigned_trailer = codes "STREAMING-UNSIGNED-PAYLOAD-TRAILER"

abbrev pub empty_payload : Bytes
empty_payload = codes "e3b0c44298fc1c149afbf4c8996fb92427ae41e4649b934ca495991b7852b855"

abbrev pub algorithm_v4 : Bytes
algorithm_v4 = codes "AWS4-HMAC-SHA256"

abbrev pub s3 : Bytes
s3 = codes "s3"

-- The sentinel errors, and a read error of the body that `bindPayload` wraps in no sentinel.
pub data AuthError : Type 0 where
  missing_authentication : AuthError
  unsupported_algorithm : AuthError
  malformed_authorization : AuthError
  malformed_presigned_url : AuthError
  request_time_invalid : AuthError
  request_time_too_skewed : AuthError
  presigned_url_expired : AuthError
  missing_content_sha256 : AuthError
  invalid_content_sha256 : AuthError
  content_sha256_mismatch : AuthError
  payload_too_large : AuthError
  reading_body : ReadError → AuthError
  unsigned_header : Bytes → AuthError
  signature_mismatch : AuthError
  reading_to_verify : ReadError → AuthError

-- A body: nil or `http.NoBody`, or what it gives when it is read, and how it ends then.
pub data Body : Type 0 where
  no_body : Body
  stream : Bytes → ReadError → Body

abbrev pub Values : Type 0
Values = List (Bytes × List Bytes)

-- What the package reads of a `http.Request`: the maps as their entries in the order of a range, `query`
-- being that of `URL.Query()`, and the path as `URL.EscapedPath()` spells it.
pub record Request : Type 0 where
  pub method : Bytes
  pub query : Values
  pub escaped_path : Bytes
  pub headers : Values
  pub host : Bytes
  pub content_length : ℤ
  pub body : Body

abbrev pub first_value : List Bytes → Bytes
first_value [] = []
first_value (v ∷ vs) = v

-- `Get` of `http.Header`, for a name in canonical form, and of `url.Values`.
unfoldable pub get : Bytes → Values → Bytes
get key [] = []
get key ((k, vs) ∷ m) = let rest = get key m in if eqb k key then first_value vs else rest

pub record ScopedCredential : Type 0 where
  pub access_key_id : Bytes
  pub date : Bytes
  pub region : Bytes
  pub service : Bytes

-- `signed_headers` is a set, by its elements in the order of a range.
pub record CanonicalRequest : Type 0 where
  pub method : Bytes
  pub uri : Bytes
  pub query : Values
  pub headers : List (Bytes × Bytes)
  pub signed_headers : List Bytes
  pub content_hash : Bytes
  pub payload_mode : Bytes

-- `content_length` and `body` are those of the request that was parsed.
pub record SignedRequest : Type 0 where
  pub canonical : CanonicalRequest
  pub credential : ScopedCredential
  pub algorithm : Bytes
  pub timestamp : ℤ
  pub signature : Bytes
  pub content_length : ℤ
  pub body : Body

-- The body that a verified request has: one that is settled, or one that is verified as it is read.
pub data BoundBody : Type 0 where
  plain : Body → BoundBody
  verifying : VerifiedBody → Bytes → ReadError → BoundBody

pub record VerifiedRequest : Type 0 where
  pub signed : SignedRequest
  pub signing_key : Bytes
  pub body : BoundBody
