-- ===== src/Sigv4/Verification.antt =====
-- pkg/sigv4/verify.go: the string to sign, the signing key, and `Verify`.
use bluebottle.Prelude.{
  ℕ, Bool, true, false, not, List, [], ◌∷◌, ◌++◌, Bytes, codes, eqb, if◌then◌else◌, Result, err, ok,
}
use bluebottle.Strings.Encoding.{hex}
use bluebottle.Strings.Spaces.{join}
use bluebottle.Sigv4.Requests.{
  Runtime, amz_time_format, amz_scope_terminator, algorithm_v4, AuthError, malformed_authorization,
  signature_mismatch, SignedRequest, BoundBody, VerifiedRequest,
}
use bluebottle.Sigv4.Contents.{bind_payload}
use bluebottle.Sigv4.Canonical.{newline, canonical_request}
pub mod Signature
pub mod Authentic

unfoldable pub build_canonical_hash : Runtime → SignedRequest → Bytes
unfolding canonical_request hex
build_canonical_hash rt req = hex (rt.sha256 (canonical_request rt false req.canonical))

unfoldable pub build_string_to_sign : Runtime → SignedRequest → Bytes
unfolding join build_canonical_hash
build_string_to_sign rt req =
    let scope =
      req.credential.date
      ++ (codes "/"
          ++ (req.credential.region
              ++ (codes "/" ++ (req.credential.service ++ (codes "/" ++ amz_scope_terminator))))) in
    join (newline ∷ []) (
      algorithm_v4
      ∷ rt.format_time amz_time_format req.timestamp
      ∷ scope
      ∷ build_canonical_hash rt req
      ∷ [])

unfoldable pub build_signing_key : Runtime → SignedRequest → Bytes → Bytes
build_signing_key rt req secret =
    let date_key = rt.hmac (codes "AWS4" ++ secret) req.credential.date in
    let region_key = rt.hmac date_key req.credential.region in
    let service_key = rt.hmac region_key req.credential.service in
    rt.hmac service_key amz_scope_terminator

abbrev pub verified :
    SignedRequest → Bytes → Result AuthError BoundBody → Result AuthError VerifiedRequest
verified req signing_key (err e) = err e
verified req signing_key (ok body) =
    ok (record { signed = req; signing_key = signing_key; body = body })

unfoldable pub verify :
    Runtime → SignedRequest → Bytes → Bytes → Bytes → Result AuthError VerifiedRequest
unfolding build_string_to_sign build_signing_key hex bind_payload
verify rt req secret region service =
    let signing_key = build_signing_key rt req secret in
    if not (eqb req.credential.region region)
    then err malformed_authorization
    else if not (eqb req.credential.service service)
    then err malformed_authorization
    else if not (eqb (hex (rt.hmac signing_key (build_string_to_sign rt req))) req.signature)
    then err signature_mismatch
    else verified req signing_key (bind_payload rt req)
