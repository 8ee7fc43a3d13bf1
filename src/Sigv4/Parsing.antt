-- ===== src/Sigv4/Parsing.antt =====
-- pkg/sigv4/parse.go: the headers, the path and the query of the canonical request, and `Parse`.
use bluebottle.Prelude.{
  ℕ, Bool, true, false, ◌&&◌, ◌||◌, not, Option, none, some, List, [], ◌∷◌, map, Bytes, codes, eqb,
  any, is_some, if◌then◌else◌, Result, err, ok,
}
use bluebottle.Prelude.Int.{ℤ, pos, negsuc}
use bluebottle.Strings.{to_lower, cut_prefix}
use bluebottle.Strings.Decimal.{format_int}
use bluebottle.Strings.Spaces.{join}
use bluebottle.Strings.Splitting.{split_byte}
use bluebottle.Sigv4.Requests.{
  Runtime, trim, words, s3, AuthError, unsigned_header, Request, Values, ScopedCredential,
  CanonicalRequest, SignedRequest,
}
use bluebottle.Sigv4.Authorization.{
  AuthComponents, get_auth_components, parse_timestamp, parse_credential,
}
use bluebottle.Sigv4.Contents.{Contents, resolve_content_hash}
pub mod Required
pub mod Accepted

abbrev pub Headers : Type 0
Headers = List (Bytes × Bytes)

-- An assignment to a map entry.
unfoldable pub put : Bytes → Bytes → Headers → Headers
put name value [] = (name, value) ∷ []
put name value ((k, v) ∷ headers) =
    let rest = put name value headers in
    if eqb name k then (name, value) ∷ headers else (k, v) ∷ rest

unfoldable pub canonical_header_value : Runtime → List Bytes → Bytes
unfolding join words
canonical_header_value rt values =
    join (codes ",") (map (λ v. join (codes " ") (words rt v)) values)

unfoldable pub snapshot : Runtime → Values → Headers → Headers
unfolding put to_lower canonical_header_value
snapshot rt [] headers = headers
snapshot rt ((name, values) ∷ more) headers =
    snapshot rt more (put (to_lower rt.platform name) (canonical_header_value rt values) headers)

abbrev pub put_length : ℤ → Headers → Headers
put_length (negsuc n) headers = headers
put_length (pos n) headers = put (codes "content-length") (format_int (pos n)) headers

unfoldable pub request_headers : Runtime → Request → Headers
unfolding put snapshot trim format_int
request_headers rt req =
    put_length req.content_length
      (put (codes "host") (trim rt req.host) (snapshot rt req.headers []))

-- An element is added to a set.
unfoldable pub add_name : Bytes → List Bytes → List Bytes
add_name name [] = name ∷ []
add_name name (n ∷ names) =
    let rest = add_name name names in if eqb name n then n ∷ names else n ∷ rest

unfoldable pub name_set : Runtime → List Bytes → List Bytes → List Bytes
unfolding add_name to_lower
name_set rt [] names = names
name_set rt (name ∷ more) names = name_set rt more (add_name (to_lower rt.platform name) names)

unfoldable pub is_required : Bytes → Bool
unfolding cut_prefix
is_required name =
    eqb name (codes "host")
    || (eqb name (codes "content-md5")
        || (is_some (cut_prefix name (codes "x-amz-"))
            && not (eqb name (codes "x-amz-content-sha256"))))

-- A header that must be signed and is not.
unfoldable pub unsigned : List Bytes → Headers → Option Bytes
unfolding is_required
unsigned signed [] = none
unsigned signed ((name, value) ∷ headers) =
    let rest = unsigned signed headers in
    if is_required name && not (any (eqb name) signed) then some name else rest

abbrev pub checked : Headers → List Bytes → Option Bytes → Result AuthError (Headers × List Bytes)
checked headers signed none = ok (headers, signed)
checked headers signed (some name) = err (unsigned_header name)

unfoldable pub parse_headers : Runtime → Request → Bytes → Result AuthError (Headers × List Bytes)
unfolding request_headers name_set split_byte unsigned
parse_headers rt req raw_signed_headers =
    let headers = request_headers rt req in
    let signed = name_set rt (split_byte b';' raw_signed_headers) [] in
    checked headers signed (unsigned signed headers)

unfoldable pub parse_uri : Runtime → Request → Bytes → Bytes
unfolding join split_byte
parse_uri rt req service =
    if eqb service s3
    then req.escaped_path
    else join (codes "/") (map rt.escape_path (split_byte b'/' req.escaped_path))

unfoldable pub parse_query : Values → Values
parse_query [] = []
parse_query ((key, values) ∷ query) =
    let rest = parse_query query in
    if eqb key (codes "X-Amz-Signature") then rest else (key, values) ∷ rest

-- The canonical request, and the body that computing its hash leaves.
unfoldable pub assemble :
    Runtime
    → Request
    → Bytes
    → Contents
    → Result AuthError (Headers × List Bytes)
    → Result AuthError (CanonicalRequest × Contents)
unfolding parse_uri parse_query
assemble rt req service contents (err e) = err e
assemble rt req service contents (ok (headers, signed)) = ok (
  record {
    method = req.method;
    uri = parse_uri rt req service;
    query = parse_query req.query;
    headers = headers;
    signed_headers = signed;
    content_hash = contents.hash;
    payload_mode = contents.mode;
  },
  contents,
)

unfoldable pub parse_canonical_request :
    Runtime → Request → Bool → Bytes → Bytes → Result AuthError (CanonicalRequest × Contents)
unfolding resolve_content_hash parse_headers assemble
parse_canonical_request rt req presigned service raw_signed_headers =
    elim (resolve_content_hash rt req presigned service) [
      | err e ↦ err e
      | ok contents ↦ assemble rt req service contents (parse_headers rt req raw_signed_headers)
    ]

abbrev pub signed_request :
    Request → AuthComponents → ℤ → ScopedCredential → CanonicalRequest × Contents → SignedRequest
signed_request req auth timestamp credential (canonical, contents) = record {
  canonical = canonical;
  credential = credential;
  algorithm = auth.algorithm;
  timestamp = timestamp;
  signature = auth.signature;
  content_length = req.content_length;
  body = contents.body;
}

infixl 1 ◌>>=◌
abbrev pub ◌>>=◌ {ℓ₁ ℓ₂} :
    {A : Type ℓ₁} {B : Type ℓ₂} → Result AuthError A → (A → Result AuthError B) → Result AuthError B
(err e) >>= f = err e
(ok a) >>= f = f a

-- `Parse`, where `now` is the time of `WithTime` or of the clock.
unfoldable pub parse : Runtime → ℤ → Request → Result AuthError SignedRequest
unfolding get_auth_components parse_timestamp parse_credential parse_canonical_request
parse rt now req = do
  auth ← get_auth_components rt req
  timestamp ← parse_timestamp rt req auth.presigned now
  credential ← parse_credential rt auth.credential timestamp
  canonical ← parse_canonical_request rt req auth.presigned credential.service auth.signed_headers
  ok (signed_request req auth timestamp credential canonical)
