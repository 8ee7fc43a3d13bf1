-- ===== src/Sigv4/Parsing/Accepted.antt =====
-- pkg/sigv4/parse.go: what a request that `Parse` accepts is known to be.
use bluebottle.Prelude.{
  ◌≡◌, refl, sym, ap, subst, ◌∙◌, Bool, true, List, Bytes, eqb, any, Result, err, ok,
}
use bluebottle.Prelude.Int.{ℤ}
use bluebottle.Sigv4.Requests.{Runtime, AuthError, Request, CanonicalRequest, SignedRequest}
use bluebottle.Sigv4.Authorization.{
  AuthComponents, get_auth_components, parse_timestamp, parse_credential,
}
use bluebottle.Sigv4.Contents.{Contents, resolve_content_hash}
use bluebottle.Sigv4.Parsing.{
  Headers, parse_headers, assemble, parse_uri, parse_query, parse_canonical_request, signed_request,
  ◌>>=◌, parse,
}
use bluebottle.Sigv4.Parsing.Required.{MustBeSigned, carries, parse_headers_signed}

-- The steps of `Parse` with their results.
pub record IsParsed (rt : Runtime) (now : ℤ) (req : Request) (s : SignedRequest) : Type 0 where
  pub auth : AuthComponents
  pub contents : Contents
  pub components : get_auth_components rt req ≡ ok auth
  pub timestamp : parse_timestamp rt req auth.presigned now ≡ ok s.timestamp
  pub credential : parse_credential rt auth.credential s.timestamp ≡ ok s.credential
  pub resolved : resolve_content_hash rt req auth.presigned s.credential.service ≡ ok contents
  pub headers :
      parse_headers rt req auth.signed_headers
      ≡ ok (s.canonical.headers, s.canonical.signed_headers)
  pub content_hash : s.canonical.content_hash ≡ contents.hash
  pub payload_mode : s.canonical.payload_mode ≡ contents.mode
  pub body : s.body ≡ contents.body
  pub signature : s.signature ≡ auth.signature

bind_sound {ℓ₁ ℓ₂} :
    {A : Type ℓ₁} {B : Type ℓ₂} (r : Result AuthError A) (f : A → Result AuthError B) (b : B)
    → (r >>= f) ≡ ok b
    → (a : A) × (r ≡ ok a) × (f a ≡ ok b)
bind_sound (err e) f b h = cc
bind_sound (ok a) f b h = (a, refl, h)

assemble_sound :
    (rt : Runtime) (req : Request) (service : Bytes) (contents : Contents)
    (r : Result AuthError (Headers × List Bytes)) (c : CanonicalRequest × Contents)
    → assemble rt req service contents r ≡ ok c
    → (r ≡ ok (c.0.headers, c.0.signed_headers))
      × (c.0.content_hash ≡ contents.hash)
      × (c.0.payload_mode ≡ contents.mode)
      × (c.1 ≡ contents)
unfolding assemble
assemble_sound rt req service contents (err e) c h = cc
assemble_sound rt req service contents (ok (headers, signed)) c h =
    let built : CanonicalRequest × Contents = (
      record {
        method = req.method;
        uri = parse_uri rt req service;
        query = parse_query req.query;
        headers = headers;
        signed_headers = signed;
        content_hash = contents.hash;
        payload_mode = contents.mode;
      },
      contents,
    ) in
    let same : built ≡ c = cc in
    subst
      (λ (x : CanonicalRequest × Contents).
        (◌≡◌ {A = Result AuthError (Headers × List Bytes)} (ok (headers, signed))
          (ok (x.0.headers, x.0.signed_headers)))
        × (x.0.content_hash ≡ contents.hash)
        × (x.0.payload_mode ≡ contents.mode)
        × (x.1 ≡ contents))
      same (refl, refl, refl, refl)

canonical_sound :
    (rt : Runtime) (req : Request) (presigned : Bool) (service raw : Bytes)
    (c : CanonicalRequest × Contents)
    → parse_canonical_request rt req presigned service raw ≡ ok c
    → (resolve_content_hash rt req presigned service ≡ ok c.1)
      × (parse_headers rt req raw ≡ ok (c.0.headers, c.0.signed_headers))
      × (c.0.content_hash ≡ c.1.hash)
      × (c.0.payload_mode ≡ c.1.mode)
unfolding parse_canonical_request
canonical_sound rt req presigned service raw c h =
    given (resolve_content_hash rt req presigned service) refl h
  where
    given :
        (r : Result AuthError Contents)
        → resolve_content_hash rt req presigned service ≡ r
        → elim r as (λ x. Result AuthError (CanonicalRequest × Contents)) [
          | err e ↦ err e
          | ok contents ↦ assemble rt req service contents (parse_headers rt req raw)
        ]
          ≡ ok c
        → (resolve_content_hash rt req presigned service ≡ ok c.1)
          × (parse_headers rt req raw ≡ ok (c.0.headers, c.0.signed_headers))
          × (c.0.content_hash ≡ c.1.hash)
          × (c.0.payload_mode ≡ c.1.mode)
    given (err e) q k = cc
    given (ok contents) q k =
        let (p, hash, mode, same) =
          assemble_sound rt req service contents (parse_headers rt req raw) c k in
        (
          q ∙ ap ok (sym same),
          p,
          hash ∙ ap (λ x. x.hash) (sym same),
          mode ∙ ap (λ x. x.mode) (sym same),
        )

pub parse-IsParsed :
    (rt : Runtime) (now : ℤ) (req : Request) (s : SignedRequest)
    → parse rt now req ≡ ok s
    → IsParsed rt now req s
unfolding parse
parse-IsParsed rt now req s h =
    let (auth, a, h1) = bind_sound (get_auth_components rt req) _ s h in
    let (ts, t, h2) = bind_sound (parse_timestamp rt req auth.presigned now) _ s h1 in
    let (credential, c, h3) = bind_sound (parse_credential rt auth.credential ts) _ s h2 in
    let (canonical, k, h4) =
      bind_sound
        (parse_canonical_request rt req auth.presigned credential.service auth.signed_headers) _ s
        h3 in
    let (r, p, hash, mode) =
      canonical_sound rt req auth.presigned credential.service auth.signed_headers canonical k in
    let same : signed_request req auth ts credential canonical ≡ s = cc in
    subst (IsParsed rt now req) same (record {
      auth = auth;
      contents = canonical.1;
      components = a;
      timestamp = t;
      credential = c;
      resolved = r;
      headers = p;
      content_hash = hash;
      payload_mode = mode;
      body = refl;
      signature = refl;
    })

-- A request that `Parse` accepts has signed its host, and each of its headers that in lower case is
-- `content-md5`, or `x-amz-` and anything but `content-sha256`.
pub parse-signed :
    (rt : Runtime) (now : ℤ) (req : Request) (s : SignedRequest) (name : Bytes)
    → parse rt now req ≡ ok s
    → carries rt req name ≡ true
    → MustBeSigned name
    → any (eqb name) s.canonical.signed_headers ≡ true
parse-signed rt now req s name h c m =
    let p = parse-IsParsed rt now req s h in
    parse_headers_signed rt req p.auth.signed_headers s.canonical.headers s.canonical.signed_headers
      name p.headers c m
