-- ===== src/Sigv4/Contents/Bound.antt =====
-- pkg/sigv4/payload.go: what a consumer of a bound body reads, against the signed digest.
use bluebottle.Prelude.{
  ℕ, ◌≡◌, refl, sym, ap, subst, ◌∙◌, Bool, true, false, not, ◌||◌, List, [], Bytes, eqb, eqb_iff,
  is_empty, length, take, ltb, leb, if◌then◌else◌, Option, some, Result, err, ok,
}
use bluebottle.Prelude.Int.{ℤ, pos, negsuc, ◌≤ℤ◌}
use bluebottle.Strings.{to_lower}
use bluebottle.Strings.Encoding.{hex}
use bluebottle.Sigv4.Payload.{ReadError, eof, fresh, consume}
use bluebottle.Sigv4.Payload.Verified.{total, consume-digest}
use bluebottle.Sigv4.Requests.{
  Runtime, s3, max_payload_len, empty_payload, AuthError, content_sha256_mismatch, Body, no_body,
  stream, SignedRequest, BoundBody, plain, verifying,
}
use bluebottle.Sigv4.Contents.{bind_buffered, bind_body, bind_payload, short_body}

-- A consumer that reads the body to its end has got these bytes: all that a settled body gives, or what
-- comes through the verifying reader, in any reads that give no more than a declared length.
abbrev pub ReadsTo : Runtime → BoundBody → Bytes → Type 0
ReadsTo rt (plain no_body) got = got ≡ []
ReadsTo rt (plain (stream content end)) got = (end ≡ eof) × (got ≡ content)
ReadsTo rt (verifying b content end) got =
    (chunks : List (Bytes × Option ReadError)) × (b.sized ≡ true
      → pos (total chunks) ≤ℤ b.remaining)
    × (consume (λ s. hex (rt.sha256 s)) b chunks [] ≡ some (got, eof))

-- An empty body of the empty digest, a settled one of the digest, or a new reader for it.
abbrev pub IsBoundTo : Runtime → Bytes → BoundBody → Type 0
IsBoundTo rt digest (plain no_body) = digest ≡ empty_payload
IsBoundTo rt digest (plain (stream content end)) = hex (rt.sha256 content) ≡ digest
IsBoundTo rt digest (verifying b content end) = b ≡ fresh digest b.remaining b.sized

pub guarded :
    (b : Bool) (e : AuthError) (r : Result AuthError BoundBody) (bound : BoundBody)
    → (if not b then err e else r) ≡ ok bound
    → (b ≡ true) × (r ≡ ok bound)
guarded true e r bound h = (refl, h)
guarded false e r bound h = cc

pub unguarded :
    (b : Bool) (e : AuthError) (r : Result AuthError BoundBody) (bound : BoundBody)
    → (if b then err e else r) ≡ ok bound
    → r ≡ ok bound
unguarded true e r bound h = cc
unguarded false e r bound h = h

pub ok_unique : {a b : BoundBody} → ◌≡◌ {A = Result AuthError BoundBody} (ok a) (ok b) → a ≡ b
ok_unique h = cc

bind_buffered-IsBoundTo :
    (rt : Runtime) (digest : Bytes) (n : ℕ) (content : Bytes) (end : ReadError) (bound : BoundBody)
    → bind_buffered rt digest n content end ≡ ok bound
    → IsBoundTo rt digest bound
unfolding bind_buffered
bind_buffered-IsBoundTo rt digest n content end bound h =
    let buf = take n content in
    let same = eqb (hex (rt.sha256 buf)) digest in
    let settled : Result AuthError BoundBody = ok (plain (stream buf eof)) in
    let g =
      unguarded (ltb (length content) n) (short_body end)
        (if not same then err content_sha256_mismatch else settled) bound h in
    let (e, k) = guarded same content_sha256_mismatch settled bound g in
    subst (IsBoundTo rt digest) (ok_unique k) ((eqb_iff (hex (rt.sha256 buf)) digest).0 e)

bind_body-IsBoundTo :
    (rt : Runtime) (digest : Bytes) (content_length : ℤ) (body : Body) (bound : BoundBody)
    → bind_body rt digest content_length body ≡ ok bound
    → IsBoundTo rt digest bound
unfolding bind_body
bind_body-IsBoundTo rt digest len no_body bound h =
    let (e, k) =
      guarded (eqb digest empty_payload) content_sha256_mismatch (ok (plain no_body)) bound h in
    subst (IsBoundTo rt digest) (ok_unique k) ((eqb_iff digest empty_payload).0 e)
bind_body-IsBoundTo rt digest (negsuc n) (stream content end) bound h =
    subst (IsBoundTo rt digest) (ok_unique h) refl
bind_body-IsBoundTo rt digest (pos n) (stream content end) bound h = sized (leb n max_payload_len) h
  where
    sized :
        (b : Bool)
        → (if b
            then bind_buffered rt digest n content end
            else ok (verifying (fresh digest (pos n) true) content end))
          ≡ ok bound
        → IsBoundTo rt digest bound
    sized true g = bind_buffered-IsBoundTo rt digest n content end bound g
    sized false g = subst (IsBoundTo rt digest) (ok_unique g) refl

-- A body that is bound to a digest is read to its end only as bytes of that digest.
IsBoundTo-digest :
    (rt : Runtime)
    → hex (rt.sha256 []) ≡ empty_payload
    → (digest : Bytes) (bound : BoundBody) (got : Bytes) → IsBoundTo rt digest bound
    → ReadsTo rt bound got
    → hex (rt.sha256 got) ≡ digest
IsBoundTo-digest rt e digest (plain no_body) got b r = ap (λ s. hex (rt.sha256 s)) r ∙ e ∙ sym b
IsBoundTo-digest rt e digest (plain (stream content end)) got b (_, r) =
    ap (λ s. hex (rt.sha256 s)) r ∙ b
IsBoundTo-digest rt e digest (verifying v content end) got b (chunks, l, c) =
    consume-digest (λ s. hex (rt.sha256 s)) digest v.remaining v.sized chunks got l
      (sym (ap (λ x. consume (λ s. hex (rt.sha256 s)) x chunks []) b) ∙ c)

-- After `bindPayload` accepts an S3 request whose content hash is a literal digest, whoever reads its
-- body to the end has got bytes that hash to this digest, whether the body is empty, was buffered, or is
-- verified as it streams; SHA-256 of no bytes is taken to be the package's constant.
pub bind_payload-digest :
    (rt : Runtime) (req : SignedRequest) (bound : BoundBody) (got : Bytes)
    → hex (rt.sha256 []) ≡ empty_payload
    → is_empty req.canonical.payload_mode ≡ true
    → req.credential.service ≡ s3
    → bind_payload rt req ≡ ok bound
    → ReadsTo rt bound got
    → hex (rt.sha256 got) ≡ to_lower rt.platform req.canonical.content_hash
unfolding bind_payload
bind_payload-digest rt req bound got z m s h r =
    let digest = to_lower rt.platform req.canonical.content_hash in
    let skips : (not (is_empty req.canonical.payload_mode) || not (eqb req.credential.service s3))
        ≡ false =
      rw (m, (eqb_iff req.credential.service s3).1 s) refl in
    let bind = bind_body rt digest req.content_length req.body in
    let bound_body : bind ≡ ok bound =
      sym (ap (λ (b : Bool). if b then ok (plain req.body) else bind) skips) ∙ h in
    IsBoundTo-digest rt z digest bound got
      (bind_body-IsBoundTo rt digest req.content_length req.body bound bound_body) r
