-- ===== src/Sigv4/Verification/Authentic.antt =====
-- pkg/sigv4/verify.go: the body that `Verify` leaves of a request that `Parse` accepted.
use bluebottle.Prelude.{
  ◌≡◌, refl, sym, ap, subst, ◌∙◌, Bool, true, false, [], Bytes, eqb, eqb_iff, is_empty, length, ltb,
  if◌then◌else◌, Bool-cases, inl, inr, Result, err, ok,
}
use bluebottle.Prelude.Int.{ℤ}
use bluebottle.Strings.{to_lower}
use bluebottle.Strings.Encoding.{hex}
use bluebottle.Sigv4.Payload.{ReadError, eof}
use bluebottle.Sigv4.Requests.{
  Runtime, s3, empty_payload, max_payload_len, AuthError, payload_too_large, Body, no_body, stream,
  Request, SignedRequest, BoundBody, plain, VerifiedRequest,
}
use bluebottle.Sigv4.Contents.{
  Contents, hashed, read_limited, other_contents, resolve_content_hash, bind_payload,
}
use bluebottle.Sigv4.Contents.Bound.{ReadsTo, bind_payload-digest}
use bluebottle.Sigv4.Parsing.{parse}
use bluebottle.Sigv4.Parsing.Accepted.{IsParsed, parse-IsParsed}
use bluebottle.Sigv4.Verification.Signature.{verify-guards}
use bluebottle.Sigv4.Verification.{verify}

-- What a body that `Parse` has read gives again has the hash that it computed.
hashed-digest :
    (rt : Runtime) (r : Result ReadError Bytes) (c : Contents) (got : Bytes)
    → hashed rt r ≡ ok c
    → ReadsTo rt (plain c.body) got
    → hex (rt.sha256 got) ≡ c.hash
hashed-digest rt (err e) c got h t = cc
hashed-digest rt (ok buf) c got h t = given (ltb max_payload_len (length buf)) h
  where
    given :
        (b : Bool)
        → (if b
            then err payload_too_large
            else ok (record { hash = hex (rt.sha256 buf); mode = []; body = stream buf eof }))
          ≡ ok c
        → hex (rt.sha256 got) ≡ c.hash
    given true k = cc
    given false k =
        let made : Contents = record {
          hash = hex (rt.sha256 buf);
          mode = [];
          body = stream buf eof;
        } in
        let same : made ≡ c = cc in
        let read : ReadsTo rt (plain made.body) got =
          subst (λ (x : Contents). ReadsTo rt (plain x.body) got) (sym same) t in
        ap (λ s. hex (rt.sha256 s)) read.1 ∙ ap (λ x. x.hash) same

other_contents-digest :
    (rt : Runtime) (body : Body) (c : Contents) (got : Bytes)
    → hex (rt.sha256 []) ≡ empty_payload
    → other_contents rt body ≡ ok c
    → ReadsTo rt (plain c.body) got
    → hex (rt.sha256 got) ≡ c.hash
unfolding other_contents
other_contents-digest rt no_body c got z h t =
    let made : Contents = record { hash = empty_payload; mode = []; body = no_body } in
    let same : made ≡ c = cc in
    let read : ReadsTo rt (plain made.body) got =
      subst (λ (x : Contents). ReadsTo rt (plain x.body) got) (sym same) t in
    ap (λ s. hex (rt.sha256 s)) read ∙ z ∙ ap (λ x. x.hash) same
other_contents-digest rt (stream content end) c got z h t =
    hashed-digest rt (read_limited 10485761 content end) c got h t

-- A request that `Parse` and then `Verify` accept, and whose payload is not one of the unsigned or
-- chunked kinds, gives whoever reads its body to the end bytes with the hash that was signed: that of
-- the header for S3, in lower case, and for other services the one that `Parse` computed; SHA-256 of
-- no bytes is taken to be the package's constant.
pub verify-digest :
    (rt : Runtime) (now : ℤ) (http : Request) (req : SignedRequest) (secret region service : Bytes)
    (v : VerifiedRequest) (got : Bytes)
    → hex (rt.sha256 []) ≡ empty_payload
    → parse rt now http ≡ ok req
    → verify rt req secret region service ≡ ok v
    → is_empty req.canonical.payload_mode ≡ true
    → ReadsTo rt v.body got
    → hex (rt.sha256 got) ≡ (
        if eqb service s3
        then to_lower rt.platform req.canonical.content_hash
        else req.canonical.content_hash)
verify-digest rt now http req secret region service v got z p h m t =
    let (_, scoped, _, _, _, bound) = (verify-guards rt req secret region service v).0 h in
    let parsed = parse-IsParsed rt now http req p in
    elim (Bool-cases (eqb service s3)) [
      | inl e ↦
          rw (e)
            (bind_payload-digest rt req v.body got z m (scoped ∙ (eqb_iff service s3).0 e) bound t)
      | inr e ↦ rw (e) (other parsed (ap (λ x. eqb x s3) scoped ∙ e) bound)
    ]
  where
    other :
        IsParsed rt now http req
        → eqb req.credential.service s3 ≡ false
        → bind_payload rt req ≡ ok v.body
        → hex (rt.sha256 got) ≡ req.canonical.content_hash
    other parsed e bound =
        let left : bind_payload rt req ≡ ok (plain req.body) =
          unfold bind_payload in rw (e, m) refl in
        let plain_body : ◌≡◌ {A = Result AuthError BoundBody} (ok (plain req.body)) (ok v.body) =
          sym left ∙ bound in
        let same : plain req.body ≡ v.body = cc in
        let read : ReadsTo rt (plain parsed.contents.body) got =
          subst (λ x. ReadsTo rt (plain x) got) parsed.body
            (subst (λ x. ReadsTo rt x got) (sym same) t) in
        let opened : resolve_content_hash rt http parsed.auth.presigned req.credential.service
            ≡ other_contents rt http.body =
          unfold resolve_content_hash in rw (e) refl in
        let made : other_contents rt http.body ≡ ok parsed.contents =
          sym opened ∙ parsed.resolved in
        other_contents-digest rt http.body parsed.contents got z made read ∙ sym parsed.content_hash
