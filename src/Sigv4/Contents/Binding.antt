-- ===== src/Sigv4/Contents/Binding.antt =====
-- pkg/sigv4/payload.go: which body `bindPayload` leaves of which.
use bluebottle.Prelude.{
  ℕ, ◌≤◌, ◌<◌, ◌≡◌, ◌≢◌, refl, sym, subst, ◌∙◌, Bool, true, false, not, ◌||◌, Bytes, codes, eqb,
  eqb_iff, is_empty, length, take, ltb, leb, arith, if◌then◌else◌, Bool-cases, inl, inr, Result,
  err, ok,
}
use bluebottle.Prelude.Int.{ℤ, pos, negsuc}
use bluebottle.Strings.{to_lower}
use bluebottle.Strings.Encoding.{hex}
use bluebottle.Sigv4.Payload.{ReadError, eof, fresh}
use bluebottle.Sigv4.Requests.{
  Runtime, max_payload_len, empty_payload, AuthError, content_sha256_mismatch, Body, no_body,
  stream, SignedRequest, BoundBody, plain, verifying,
}
use bluebottle.Sigv4.Contents.{bind_buffered, bind_body, bind_payload, short_body}
use bluebottle.Sigv4.Contents.Bound.{guarded, ok_unique}

-- A body of a declared length, or of an unknown one, with what is bound to a digest: an empty body to
-- that of no bytes, up to 10 MiB to their own, and others as they are read.
pub data BindsTo (rt : Runtime) (digest : Bytes) : ℤ → Body → BoundBody → Type 0 where
  empty :
      (len : ℤ)
      → digest ≡ codes "e3b0c44298fc1c149afbf4c8996fb92427ae41e4649b934ca495991b7852b855"
      → BindsTo rt digest len no_body (plain no_body)
  buffered :
      (n : ℕ) (content : Bytes) (end : ReadError)
      → n ≤ 10485760
      → n ≤ length content
      → hex (rt.sha256 (take n content)) ≡ digest
      → BindsTo rt digest (pos n) (stream content end) (plain (stream (take n content) eof))
  long :
      (n : ℕ) (content : Bytes) (end : ReadError)
      → 10485760 < n
      → BindsTo rt digest
          (pos n)
          (stream content end)
          (verifying (fresh digest (pos n) true) content end)
  unsized :
      (n : ℕ) (content : Bytes) (end : ReadError)
      → BindsTo rt digest
          (negsuc n)
          (stream content end)
          (verifying (fresh digest (negsuc n) false) content end)

-- The body is bound where the payload hash is a digest and the service is S3, and else left alone.
pub data Binds (rt : Runtime) (req : SignedRequest) : BoundBody → Type 0 where
  sentinel : is_empty req.canonical.payload_mode ≡ false → Binds rt req (plain req.body)
  elsewhere : req.credential.service ≢ codes "s3" → Binds rt req (plain req.body)
  digest :
      {b : BoundBody}
      → is_empty req.canonical.payload_mode ≡ true
      → req.credential.service ≡ codes "s3"
      → BindsTo rt (to_lower rt.platform req.canonical.content_hash) req.content_length req.body b
      → Binds rt req b

bind_body_sound :
    (rt : Runtime) (d : Bytes) (len : ℤ) (body : Body) (b : BoundBody)
    → bind_body rt d len body ≡ ok b
    → BindsTo rt d len body b
unfolding bind_body bind_buffered
bind_body_sound rt d len no_body b h =
    let (e, k) = guarded (eqb d empty_payload) content_sha256_mismatch (ok (plain no_body)) b h in
    subst (BindsTo rt d len no_body) (ok_unique k) (empty len ((eqb_iff d empty_payload).0 e))
bind_body_sound rt d (negsuc n) (stream content end) b h =
    subst (BindsTo rt d (negsuc n) (stream content end)) (ok_unique h) (unsized n content end)
bind_body_sound rt d (pos n) (stream content end) b h = sized (leb n max_payload_len) refl h
  where
    sized :
        (c : Bool)
        → leb n max_payload_len ≡ c
        → (if c
            then bind_buffered rt d n content end
            else ok (verifying (fresh d (pos n) true) content end))
          ≡ ok b
        → BindsTo rt d (pos n) (stream content end) b
    sized false e g =
        subst (BindsTo rt d (pos n) (stream content end)) (ok_unique g)
          (long n content end (ground (arith, e)))
    sized true e g =
        let buf = take n content in
        let same = eqb (hex (rt.sha256 buf)) d in
        let settled : Result AuthError BoundBody = ok (plain (stream buf eof)) in
        short (ltb (length content) n) refl g
      where
        short :
            (c : Bool)
            → ltb (length content) n ≡ c
            → (if c
                then err (short_body end)
                else if not (eqb (hex (rt.sha256 (take n content))) d)
                then err content_sha256_mismatch
                else ok (plain (stream (take n content) eof)))
              ≡ ok b
            → BindsTo rt d (pos n) (stream content end) b
        short true q k = cc
        short false q k =
            let (m, o) =
              guarded (eqb (hex (rt.sha256 (take n content))) d) content_sha256_mismatch
                (ok (plain (stream (take n content) eof))) b k in
            subst (BindsTo rt d (pos n) (stream content end)) (ok_unique o) (
              buffered n content end (ground (arith, e)) (ground (arith, q))
                ((eqb_iff (hex (rt.sha256 (take n content))) d).0 m))

bind_body_complete :
    (rt : Runtime) (d : Bytes) (len : ℤ) (body : Body) (b : BoundBody)
    → BindsTo rt d len body b
    → bind_body rt d len body ≡ ok b
unfolding bind_body bind_buffered
bind_body_complete rt d _ _ _ (empty len e) = rw ((eqb_iff d empty_payload).1 e) refl
bind_body_complete rt d _ _ _ (buffered n content end u l e) =
    let a : leb n max_payload_len ≡ true = ground (arith, u) in
    let c : ltb (length content) n ≡ false = ground (arith, l) in
    rw (a, c, (eqb_iff (hex (rt.sha256 (take n content))) d).1 e) refl
bind_body_complete rt d _ _ _ (long n content end u) =
    let a : leb n max_payload_len ≡ false = ground (arith, u) in rw (a) refl
bind_body_complete rt d _ _ _ (unsized n content end) = refl

pub bind_payload_sound :
    (rt : Runtime) (req : SignedRequest) (b : BoundBody)
    → bind_payload rt req ≡ ok b
    → Binds rt req b
unfolding bind_payload
bind_payload_sound rt req b h =
    decide (is_empty req.canonical.payload_mode) refl (eqb req.credential.service (codes "s3")) refl
      h
  where
    decide :
        (m : Bool)
        → is_empty req.canonical.payload_mode ≡ m
        → (s : Bool) → eqb req.credential.service (codes "s3") ≡ s
        → (if not m || not s
            then ok (plain req.body)
            else bind_body rt
                (to_lower rt.platform req.canonical.content_hash)
                req.content_length
                req.body)
          ≡ ok b
        → Binds rt req b
    decide false p s q k = subst (Binds rt req) (ok_unique k) (sentinel p)
    decide true p false q k = subst (Binds rt req) (ok_unique k) (
        elsewhere (λ e.
          let no : true ≡ false = sym ((eqb_iff req.credential.service (codes "s3")).1 e) ∙ q in
          cc))
    decide true p true q k = digest p ((eqb_iff req.credential.service (codes "s3")).0 q) (
        bind_body_sound rt (to_lower rt.platform req.canonical.content_hash) req.content_length
          req.body b k)

pub bind_payload_complete :
    (rt : Runtime) (req : SignedRequest) (b : BoundBody)
    → Binds rt req b
    → bind_payload rt req ≡ ok b
unfolding bind_payload
bind_payload_complete rt req _ (sentinel p) = rw (p) refl
bind_payload_complete rt req _ (elsewhere h) =
    elim (Bool-cases (eqb req.credential.service (codes "s3"))) [
      | inl e ↦ absurd (h ((eqb_iff req.credential.service (codes "s3")).0 e))
      | inr e ↦ elim (Bool-cases (is_empty req.canonical.payload_mode)) [
        | inl m ↦ rw (e, m) refl
        | inr m ↦ rw (e, m) refl
      ]
    ]
bind_payload_complete rt req b (digest m s x) =
    rw (m, (eqb_iff req.credential.service (codes "s3")).1 s)
      (bind_body_complete rt (to_lower rt.platform req.canonical.content_hash) req.content_length
        req.body b x)
