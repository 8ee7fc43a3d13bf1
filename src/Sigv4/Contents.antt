-- ===== src/Sigv4/Contents.antt =====
-- pkg/sigv4/payload.go and parse.go: the payload hash of a request, and binding its body to it.
use bluebottle.Prelude.{
  ℕ, zero, suc, ◌+◌, Bool, true, false, ◌&&◌, ◌||◌, not, List, [], ◌∷◌, Bytes, codes, ◌==◌, eqb,
  ltb, leb, length, take, all, any, is_empty, if◌then◌else◌, Result, err, ok,
}
use bluebottle.Prelude.Int.{ℤ, pos, negsuc}
use bluebottle.Strings.{to_lower}
use bluebottle.Strings.Encoding.{hex, is_hex_digit}
use bluebottle.Sigv4.Payload.{
  ReadError, eof, unexpected_eof, sha256_mismatch, other, VerifiedBody, fresh,
}
use bluebottle.Sigv4.Requests.{
  Runtime, trim, max_payload_len, unsigned_payload, streaming_signed, streaming_signed_trailer,
  streaming_unsigned_trailer, empty_payload, s3, AuthError, missing_content_sha256,
  invalid_content_sha256, content_sha256_mismatch, payload_too_large, reading_body,
  reading_to_verify, Body, no_body, stream, Request, get, SignedRequest, BoundBody, plain,
  verifying,
}
pub mod Bound
pub mod Binding

abbrev pub sentinels : List Bytes
sentinels =
    unsigned_payload ∷ streaming_signed ∷ streaming_signed_trailer ∷ streaming_unsigned_trailer ∷ []

-- `hex.DecodeString` accepts a text of 64 bytes when these are digits.
unfoldable pub is_sha256_hex : Bytes → Bool
is_sha256_hex s = (length s == 64) && all is_hex_digit s

unfoldable pub payload_mode : Bytes → Result AuthError Bytes
unfolding is_sha256_hex
payload_mode content_hash =
    if any (λ m. eqb m content_hash) sentinels
    then ok content_hash
    else if is_sha256_hex content_hash
    then ok []
    else err invalid_content_sha256

-- What `resolveContentHash` returns, and the body it leaves.
pub record Contents : Type 0 where
  pub hash : Bytes
  pub mode : Bytes
  pub body : Body

abbrev pub with_mode : Bytes → Body → Result AuthError Bytes → Result AuthError Contents
with_mode hash body (err e) = err e
with_mode hash body (ok mode) = ok (record { hash = hash; mode = mode; body = body })

unfoldable pub s3_contents : Runtime → Request → Bool → Result AuthError Contents
unfolding get trim payload_mode
s3_contents rt req presigned =
    let h = trim rt (get (codes "X-Amz-Content-Sha256") req.headers) in
    if presigned
    then ok (record { hash = unsigned_payload; mode = unsigned_payload; body = req.body })
    else if is_empty h
    then err missing_content_sha256
    else with_mode h req.body (payload_mode h)

-- `io.ReadAll(io.LimitReader(body, limit))` for a body with this content and end.
unfoldable pub read_limited : ℕ → Bytes → ReadError → Result ReadError Bytes
read_limited limit content eof = ok (take limit content)
read_limited limit content end =
    if ltb (length content) limit then err end else ok (take limit content)

-- The content is hashed, and the body made anew from it.
abbrev pub hashed : Runtime → Result ReadError Bytes → Result AuthError Contents
hashed rt (err e) = err (reading_body e)
hashed rt (ok buf) =
    if ltb max_payload_len (length buf)
    then err payload_too_large
    else ok (record { hash = hex (rt.sha256 buf); mode = []; body = stream buf eof })

unfoldable pub other_contents : Runtime → Body → Result AuthError Contents
unfolding read_limited hex
other_contents rt no_body = ok (record { hash = empty_payload; mode = []; body = no_body })
other_contents rt (stream content end) = hashed rt (read_limited (max_payload_len + 1) content end)

-- Where this fails the request is given up, and its body with it.
unfoldable pub resolve_content_hash : Runtime → Request → Bool → Bytes → Result AuthError Contents
unfolding s3_contents other_contents
resolve_content_hash rt req presigned service =
    if eqb service s3 then s3_contents rt req presigned else other_contents rt req.body

-- The error of `io.ReadFull` on a body that ends too early, as `bindPayload` returns it.
abbrev pub short_body : ReadError → AuthError
short_body eof = content_sha256_mismatch
short_body unexpected_eof = content_sha256_mismatch
short_body sha256_mismatch = reading_to_verify sha256_mismatch
short_body (other n) = reading_to_verify (other n)

-- A body of declared length, read whole.
unfoldable pub bind_buffered : Runtime → Bytes → ℕ → Bytes → ReadError → Result AuthError BoundBody
unfolding hex
bind_buffered rt digest n content end =
    let buf = take n content in
    if ltb (length content) n
    then err (short_body end)
    else if not (eqb (hex (rt.sha256 buf)) digest)
    then err content_sha256_mismatch
    else ok (plain (stream buf eof))

unfoldable pub bind_body : Runtime → Bytes → ℤ → Body → Result AuthError BoundBody
unfolding bind_buffered
bind_body rt digest content_length no_body =
    if not (eqb digest empty_payload) then err content_sha256_mismatch else ok (plain no_body)
bind_body rt digest (negsuc n) (stream content end) =
    ok (verifying (fresh digest (negsuc n) false) content end)
bind_body rt digest (pos n) (stream content end) =
    if leb n max_payload_len
    then bind_buffered rt digest n content end
    else ok (verifying (fresh digest (pos n) true) content end)

unfoldable pub bind_payload : Runtime → SignedRequest → Result AuthError BoundBody
unfolding to_lower bind_body
bind_payload rt req =
    let digest = to_lower rt.platform req.canonical.content_hash in
    if not (is_empty req.canonical.payload_mode) || not (eqb req.credential.service s3)
    then ok (plain req.body)
    else bind_body rt digest req.content_length req.body
