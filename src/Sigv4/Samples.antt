-- ===== src/Sigv4/Samples.antt =====
-- pkg/sigv4: a small platform and a signed upload, for the concrete runs.
use bluebottle.Prelude.{
  ℕ, ◌+◌, ◌%◌, ◌≡◌, refl, Bool, true, false, Option, none, some, List, [], ◌∷◌, ◌++◌, any, ◌==◌,
  Bytes, codes, eqb, is_empty, if◌then◌else◌, Result, ok,
}
use bluebottle.Prelude.Int.{ℤ, pos}
use bluebottle.Strings.{Platform}
use bluebottle.Strings.Encoding.{hex}
use bluebottle.Sigv4.Payload.{eof}
use bluebottle.Sigv4.Requests.{
  Runtime, amz_time_format, amz_date_format, empty_payload, stream, Request,
}
mod Signed
mod Times
mod Rendered

-- Only one text is a time, and one a date.
abbrev pub parse_noon : Bytes → Bytes → Option ℤ
parse_noon layout s =
    if eqb layout amz_time_format
    then (if eqb s (codes "20260102T120000Z") then some (pos 1767355200000000000) else none)
    else if eqb s (codes "20260102")
    then some (pos 1767312000000000000)
    else none

unfoldable pub checksum : Bytes → ℕ
checksum [] = 7
checksum (c ∷ s) = (checksum s + c) % 256

unfoldable pub empty_sum : Bytes
empty_sum =
    227 ∷ 176 ∷ 196 ∷ 66 ∷ 152 ∷ 252 ∷ 28 ∷ 20 ∷ 154 ∷ 251 ∷ 244 ∷ 200 ∷ 153 ∷ 111 ∷ 185 ∷ 36 ∷ 39
    ∷ 174 ∷ 65 ∷ 228 ∷ 100 ∷ 155 ∷ 147 ∷ 76 ∷ 164 ∷ 149 ∷ 153 ∷ 27 ∷ 120 ∷ 82 ∷ 184 ∷ 85 ∷ []

-- A text is its own sum, but for the empty one.
abbrev pub small_runtime : Runtime
small_runtime = record {
  platform = record {
    wide_lower = λ s. s;
    wide_fold = λ s t. false;
    parse_addr = λ s. none;
    parse_prefix = λ s. none;
    parse_time = parse_noon;
  };
  format_time =
      λ layout t. if eqb layout amz_date_format then codes "20260102" else codes "20260102T120000Z";
  parse_http_time = λ s. none;
  wide_trim = λ s. s;
  wide_fields = λ s. s ∷ [];
  escape_path = λ s. if any (λ c. c == 10) s then [] else s;
  sha256 = λ s. if is_empty s then empty_sum else s;
  hmac = λ key message. checksum (key ++ message) ∷ [];
}

pub empty_sum-hex : hex (small_runtime.sha256 []) ≡ empty_payload
unfolding hex empty_sum
empty_sum-hex = refl

abbrev pub content : Bytes
content = codes "jjjjjjjjjjjjjjjjjjjjjjjjjjjjjjjj"

abbrev pub upper_hash : Bytes
upper_hash = codes "6A6A6A6A6A6A6A6A6A6A6A6A6A6A6A6A6A6A6A6A6A6A6A6A6A6A6A6A6A6A6A6A"

abbrev pub authorization : Bytes
authorization =
    codes
      "AWS4-HMAC-SHA256 Credential=AKID/20260102/eu/s3/aws4_request, SignedHeaders=host;x-amz-date, Signature=28"

abbrev pub noon : ℤ
noon = pos 1767355200000000000

abbrev pub upload : Request
upload = record {
  method = codes "PUT";
  query = (codes "partNumber", codes "1" ∷ []) ∷ [];
  escaped_path = codes "/bucket/key";
  headers =
      (codes "X-Amz-Date", codes "20260102T120000Z" ∷ [])
      ∷ (codes "X-Amz-Content-Sha256", upper_hash ∷ [])
      ∷ (codes "Authorization", authorization ∷ [])
      ∷ [];
  host = codes "s3.local";
  content_length = pos 32;
  body = stream content eof;
}
