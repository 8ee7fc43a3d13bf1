-- ===== src/Sigv4/Samples/Times.antt =====
-- pkg/sigv4/parse.go: the window of a request's time, and a credential scope.
use bluebottle.Prelude.{◌*◌, ◌≡◌, ◌↔◌, refl, true, some, Bytes, codes, [], ◌∷◌, arith, ok}
use bluebottle.Prelude.Int.{ℤ, pos}
use bluebottle.Strings.Decimal.{parse_int}
use bluebottle.Strings.Spaces.{join}
use bluebottle.Strings.Splitting.{AllLack}
use bluebottle.Sigv4.Requests.{
  s3, no_body, Request, get, ScopedCredential, max_clock_skew, max_presign_age,
}
use bluebottle.Sigv4.Authorization.{read_timestamp, parse_timestamp, parse_credential}
use bluebottle.Sigv4.Authorization.Windows.{
  Within, parse_timestamp-Within, parse_timestamp-presigned_iff,
}
use bluebottle.Sigv4.Authorization.Wrapping.{parse_timestamp-wraps}
use bluebottle.Sigv4.Authorization.Scopes.{scope_list, IsDateOf, parse_credential_iff}
use bluebottle.Sigv4.Samples.{small_runtime, noon}

abbrev presigned_url : Bytes → Request
presigned_url expires = record {
  method = codes "GET";
  query =
      (codes "X-Amz-Date", codes "20260102T120000Z" ∷ [])
      ∷ (codes "X-Amz-Expires", expires ∷ [])
      ∷ [];
  escaped_path = codes "/bucket/key";
  headers = [];
  host = codes "s3.local";
  content_length = pos 0;
  body = no_body;
}

-- A minute after noon.
abbrev later : ℤ
later = pos 1767355260000000000

in_time : parse_timestamp small_runtime (presigned_url (codes "60")) true later ≡ ok noon
unfolding parse_timestamp
in_time = refl

parse_timestamp-Within_example :
    (read_timestamp small_runtime (presigned_url (codes "60")) true ≡ ok noon)
    × Within max_clock_skew noon later
    × Within max_presign_age later noon
parse_timestamp-Within_example =
    parse_timestamp-Within small_runtime (presigned_url (codes "60")) true later noon in_time

sixty :
    parse_int 64 (get (codes "X-Amz-Expires") (presigned_url (codes "60")).query) ≡ some (pos 60)
unfolding parse_int get
sixty = refl

parse_timestamp-presigned_iff_example :
    (parse_timestamp small_runtime (presigned_url (codes "60")) true later ≡ ok noon) ↔ (
      (read_timestamp small_runtime (presigned_url (codes "60")) true ≡ ok noon)
      × Within max_clock_skew noon later
      × Within (60 * 1000000000) later noon)
parse_timestamp-presigned_iff_example =
    parse_timestamp-presigned_iff small_runtime (presigned_url (codes "60")) later noon 60 sixty
      (omega arith) (omega arith)

-- 585 years, which come to nothing but 290 milliseconds.
abbrev ages : Request
ages = presigned_url (codes "18446744074")

ages_read : parse_int 64 (get (codes "X-Amz-Expires") ages.query) ≡ some (pos 18446744074)
unfolding parse_int get
ages_read = refl

noon_read : read_timestamp small_runtime ages true ≡ ok noon
unfolding read_timestamp
noon_read = refl

parse_timestamp-wraps_example : parse_timestamp small_runtime ages true noon ≡ ok noon
parse_timestamp-wraps_example =
    parse_timestamp-wraps small_runtime ages noon 18446744074 ages_read (omega arith) (omega arith)
      noon_read

abbrev scope : ScopedCredential
scope = record {
  access_key_id = codes "AKID";
  date = codes "20260102";
  region = codes "eu";
  service = s3;
}

parse_credential_iff_example :
    (parse_credential small_runtime (codes "AKID/20260102/eu/s3/aws4_request") noon ≡ ok scope) ↔ (
      (codes "AKID/20260102/eu/s3/aws4_request" ≡ join (codes "/") (scope_list scope))
      × AllLack b'/' (scope_list scope)
      × IsDateOf small_runtime noon scope.date)
parse_credential_iff_example =
    parse_credential_iff small_runtime (codes "AKID/20260102/eu/s3/aws4_request") noon scope
