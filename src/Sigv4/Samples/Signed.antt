-- ===== src/Sigv4/Samples/Signed.antt =====
-- pkg/sigv4/parse.go and verify.go: a signed upload is parsed and verified.
use bluebottle.Prelude.{is_some, ◌≡◌, ◌≢◌, ◌↔◌, refl, eqb, any, true, ok, codes, [], ◌∷◌}
use bluebottle.Prelude.Sorting.{sort}
use bluebottle.Prelude.Int.{pos}
use bluebottle.Strings.{to_lower}
use bluebottle.Strings.Encoding.{hex}
use bluebottle.Sigv4.Payload.{eof}
use bluebottle.Sigv4.Requests.{SignedRequest, VerifiedRequest, algorithm_v4, stream, plain}
use bluebottle.Sigv4.Contents.{bind_payload}
use bluebottle.Sigv4.Parsing.{parse}
use bluebottle.Sigv4.Parsing.Required.{carries, amz}
use bluebottle.Sigv4.Parsing.Accepted.{parse-signed}
use bluebottle.Sigv4.Verification.{verify}
use bluebottle.Sigv4.Verification.Authentic.{verify-digest}
use bluebottle.Sigv4.Verification.Signature.{IsAuthentic, verify_iff}
use bluebottle.Sigv4.Samples.{
  small_runtime, checksum, empty_sum-hex, content, upper_hash, authorization, noon, upload,
}

abbrev signed_upload : SignedRequest
signed_upload = record {
  canonical = record {
    method = codes "PUT";
    uri = codes "/bucket/key";
    query = (codes "partNumber", codes "1" ∷ []) ∷ [];
    headers =
        (codes "x-amz-date", codes "20260102T120000Z")
        ∷ (codes "x-amz-content-sha256", upper_hash)
        ∷ (codes "authorization", authorization)
        ∷ (codes "host", codes "s3.local")
        ∷ (codes "content-length", codes "32")
        ∷ [];
    signed_headers = codes "host" ∷ codes "x-amz-date" ∷ [];
    content_hash = upper_hash;
    payload_mode = [];
  };
  credential = record {
    access_key_id = codes "AKID";
    date = codes "20260102";
    region = codes "eu";
    service = codes "s3";
  };
  algorithm = algorithm_v4;
  timestamp = noon;
  signature = codes "28";
  content_length = pos 32;
  body = stream content eof;
}

abbrev verified_upload : VerifiedRequest
verified_upload = record {
  signed = signed_upload;
  signing_key = 181 ∷ [];
  body = plain (stream content eof);
}

parsed : parse small_runtime noon upload ≡ ok signed_upload
unfolding parse is_some
parsed = refl

accepted :
    verify small_runtime signed_upload (codes "secret") (codes "eu") (codes "s3")
    ≡ ok verified_upload
unfolding verify checksum sort
accepted = refl

bound : bind_payload small_runtime signed_upload ≡ ok verified_upload.body
unfolding bind_payload
bound = refl

not_the_hash : codes "date" ≢ codes "content-sha256"
not_the_hash h = cc

dated : carries small_runtime upload (codes "x-amz-date") ≡ true
unfolding to_lower
dated = refl

parse-signed_example :
    any (eqb (codes "x-amz-date")) (codes "host" ∷ codes "x-amz-date" ∷ []) ≡ true
parse-signed_example =
    parse-signed small_runtime noon upload signed_upload (codes "x-amz-date") parsed dated
      (amz (codes "date") not_the_hash)

verify_iff_example :
    (verify small_runtime signed_upload (codes "secret") (codes "eu") (codes "s3")
      ≡ ok verified_upload)
    ↔ IsAuthentic small_runtime signed_upload
        (codes "secret")
        (codes "eu")
        (codes "s3")
        verified_upload
verify_iff_example =
    verify_iff small_runtime signed_upload (codes "secret") (codes "eu") (codes "s3")
      verified_upload

verify-digest_example : hex content ≡ to_lower small_runtime.platform upper_hash
verify-digest_example =
    verify-digest small_runtime noon upload signed_upload (codes "secret") (codes "eu") (codes "s3")
      verified_upload content empty_sum-hex parsed accepted refl (refl, refl)
