-- ===== src/Sigv4/Verification/Signature.antt =====
-- pkg/sigv4/verify.go: the requests that `Verify` accepts, in the words of Signature Version 4.
use bluebottle.Prelude.{
  ◌≡◌, refl, sym, ap, ap₂, List, ◌∷◌, ◌++◌, codes, ◌∙◌, Bool, true, false, not, ◌↔◌, [], Bytes, eqb,
  eqb_iff, if◌then◌else◌, Result, err, ok,
}
use bluebottle.Strings.Encoding.{hex}
use bluebottle.Sigv4.Requests.{
  Runtime, AuthError, malformed_authorization, signature_mismatch, SignedRequest, BoundBody,
  VerifiedRequest,
}
use bluebottle.Sigv4.Contents.{bind_payload}
use bluebottle.Strings.Spaces.{join}
use bluebottle.Sigv4.Canonical.{canonical_request}
use bluebottle.Sigv4.Contents.Binding.{Binds, bind_payload_sound, bind_payload_complete}
use bluebottle.Sigv4.Verification.{
  build_canonical_hash, build_string_to_sign, build_signing_key, verified, verify,
}

abbrev signature_of : Runtime → SignedRequest → Bytes → Bytes
signature_of rt req secret =
    hex (rt.hmac (build_signing_key rt req secret) (build_string_to_sign rt req))

verified_sound :
    (req : SignedRequest) (key : Bytes) (r : Result AuthError BoundBody) (v : VerifiedRequest)
    → verified req key r ≡ ok v
    → (v.signed ≡ req) × (v.signing_key ≡ key) × (r ≡ ok v.body)
verified_sound req key (err e) v h = cc
verified_sound req key (ok body) v h =
    let made : VerifiedRequest = record { signed = req; signing_key = key; body = body } in
    let same : made ≡ v = cc in
    (
      ap (λ x. x.signed) (sym same),
      ap (λ x. x.signing_key) (sym same),
      ap (λ (x : VerifiedRequest). ok x.body) same,
    )

verified_complete :
    (req : SignedRequest) (key : Bytes) (r : Result AuthError BoundBody) (v : VerifiedRequest)
    → (v.signed ≡ req)
    → (v.signing_key ≡ key)
    → (r ≡ ok v.body)
    → verified req key r ≡ ok v
verified_complete req key r v s k b =
    ap (verified req key) b
    ∙ ap (λ x. ok (record { signed = x; signing_key = key; body = v.body })) (sym s)
    ∙ ap (λ x. ok (record { signed = v.signed; signing_key = x; body = v.body })) (sym k)

guards_sound :
    (a b c : Bool) (r : Result AuthError VerifiedRequest) (v : VerifiedRequest)
    → (if not a
        then err malformed_authorization
        else if not b
        then err malformed_authorization
        else if not c
        then err signature_mismatch
        else r)
      ≡ ok v
    → (a ≡ true) × (b ≡ true) × (c ≡ true) × (r ≡ ok v)
guards_sound false b c r v h = cc
guards_sound true false c r v h = cc
guards_sound true true false r v h = cc
guards_sound true true true r v h = (refl, refl, refl, h)

pub verify-guards :
    (rt : Runtime) (req : SignedRequest) (secret region service : Bytes) (v : VerifiedRequest)
    → (verify rt req secret region service ≡ ok v) ↔ (
        (req.credential.region ≡ region)
        × (req.credential.service ≡ service)
        × (signature_of rt req secret ≡ req.signature)
        × (v.signed ≡ req)
        × (v.signing_key ≡ build_signing_key rt req secret)
        × (bind_payload rt req ≡ ok v.body))
unfolding verify
verify-guards rt req secret region service v =
    let key = build_signing_key rt req secret in
    (
      λ h.
          let (a, b, c, r) =
            guards_sound (eqb req.credential.region region) (eqb req.credential.service service)
              (eqb (signature_of rt req secret) req.signature)
              (verified req key (bind_payload rt req)) v h in
          let (signed, made, bound) = verified_sound req key (bind_payload rt req) v r in
          (
            (eqb_iff req.credential.region region).0 a,
            (eqb_iff req.credential.service service).0 b,
            (eqb_iff (signature_of rt req secret) req.signature).0 c,
            signed,
            made,
            bound,
          ),
      λ (a, b, c, s, k, r).
          rw
            (
              (eqb_iff req.credential.region region).1 a,
              (eqb_iff req.credential.service service).1 b,
              (eqb_iff (signature_of rt req secret) req.signature).1 c,
            )
            (verified_complete req key (bind_payload rt req) v s k r),
    )

-- Keys are derived from one another, one for each part of the scope.
abbrev pub chain : Runtime → Bytes → List Bytes → Bytes
chain rt key [] = key
chain rt key (part ∷ parts) = chain rt (rt.hmac key part) parts

-- The scope of a credential, by its date.
abbrev pub scope_of : Bytes → Bytes → Bytes → List Bytes
scope_of date region service = date ∷ region ∷ service ∷ codes "aws4_request" ∷ []

abbrev pub key_of : Runtime → Bytes → Bytes → Bytes → Bytes → Bytes
key_of rt secret date region service =
    chain rt (codes "AWS4" ++ secret) (scope_of date region service)

-- Four lines: the algorithm, the time, the scope, and the digest of the canonical request.
abbrev pub text_of : Runtime → SignedRequest → Bytes → Bytes → Bytes
text_of rt req region service = join (10 ∷ []) (
    codes "AWS4-HMAC-SHA256"
    ∷ rt.format_time (codes "20060102T150405Z") req.timestamp
    ∷ join (codes "/") (scope_of req.credential.date region service)
    ∷ hex (rt.sha256 (canonical_request rt false req.canonical))
    ∷ [])

-- What is returned for a request that was signed with the secret for the region and the service.
pub record IsAuthentic (rt : Runtime) (req : SignedRequest) (secret region service : Bytes)
    (v : VerifiedRequest) : Type 0 where
  pub for_region : req.credential.region ≡ region
  pub for_service : req.credential.service ≡ service
  pub signature :
      req.signature
      ≡ hex (
          rt.hmac
            (key_of rt secret req.credential.date region service)
            (text_of rt req region service))
  pub signed : v.signed ≡ req
  pub signing_key : v.signing_key ≡ key_of rt secret req.credential.date region service
  pub body : Binds rt req v.body

key_of-build :
    (rt : Runtime) (req : SignedRequest) (secret : Bytes)
    → build_signing_key rt req secret
      ≡ key_of rt secret req.credential.date req.credential.region req.credential.service
unfolding build_signing_key
key_of-build rt req secret = refl

text_of-build :
    (rt : Runtime) (req : SignedRequest)
    → build_string_to_sign rt req ≡ text_of rt req req.credential.region req.credential.service
unfolding build_string_to_sign build_canonical_hash join
text_of-build rt req = refl

-- `Verify` accepts a request with a secret for a region and a service exactly when it is scoped to both,
-- its signature is the HMAC of the four lines to sign under the key that is derived from the secret, the
-- date, the region, the service and `aws4_request`, and its body can be bound to its payload hash; it
-- returns the request with this key and the bound body.
pub verify_iff :
    (rt : Runtime) (req : SignedRequest) (secret region service : Bytes) (v : VerifiedRequest)
    → (verify rt req secret region service ≡ ok v) ↔ IsAuthentic rt req secret region service v
verify_iff rt req secret region service v =
    let signs : Bytes → Bytes → Bytes =
      λ r s. hex (rt.hmac (key_of rt secret req.credential.date r s) (text_of rt req r s)) in
    let built : signature_of rt req secret ≡ signs req.credential.region req.credential.service =
      ap₂ (λ k t. hex (rt.hmac k t)) (key_of-build rt req secret) (text_of-build rt req) in
    let (to, from) = verify-guards rt req secret region service v in
    (
      λ h.
          let (a, b, c, signed, made, bound) = to h in
          record {
            for_region = a;
            for_service = b;
            signature = sym c ∙ built ∙ ap₂ signs a b;
            signed = signed;
            signing_key =
                made ∙ key_of-build rt req secret ∙ ap₂ (key_of rt secret req.credential.date) a b;
            body = bind_payload_sound rt req v.body bound;
          },
      λ i. from (
        i.for_region,
        i.for_service,
        built ∙ ap₂ signs i.for_region i.for_service ∙ sym i.signature,
        i.signed,
        i.signing_key
            ∙ sym (
                key_of-build rt req secret
                ∙ ap₂ (key_of rt secret req.credential.date) i.for_region i.for_service),
        bind_payload_complete rt req v.body i.body,
      ),
    )
