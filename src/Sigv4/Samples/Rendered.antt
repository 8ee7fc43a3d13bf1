-- ===== src/Sigv4/Samples/Rendered.antt =====
-- pkg/sigv4/verify.go: the canonical requests of two signed downloads.
use mathlib.Core.List.{Permᴰ}
use bluebottle.Prelude.{
  ◌≡◌, refl, sym, ap, Bool, true, false, not, Bool-cases, inl, inr, all, ◌&&◌, any, ◌==◌, Bytes,
  eqb, codes, List, [], ◌∷◌, eqb_iff, ◌∙◌,
}
use bluebottle.Prelude.Sorting.{sort}
use bluebottle.Strings.{equal_fold}
use bluebottle.Strings.Encoding.{leb_bytes}
use bluebottle.Strings.Cutting.{Lacks}
use bluebottle.Sigv4.Requests.{Values, CanonicalRequest}
use bluebottle.Sigv4.Canonical.{canonical_request, query_text, header_value, newline, is_session}
use bluebottle.Sigv4.Canonical.Ordering.{canonical_request-reordered}
use bluebottle.Sigv4.Canonical.Redaction.{canonical_request-redacted}
use bluebottle.Sigv4.Canonical.Unambiguous.{
  EscapesLines, IsOneLine, sorted_names, wire_uri, values_of, canonical_request-injective,
}
use bluebottle.Sigv4.Samples.{small_runtime}

abbrev download : Values → List (Bytes × Bytes) → List Bytes → CanonicalRequest
download query headers signed = record {
  method = codes "GET";
  uri = codes "/bucket/key";
  query = query;
  headers = headers;
  signed_headers = signed;
  content_hash = codes "UNSIGNED-PAYLOAD";
  payload_mode = codes "UNSIGNED-PAYLOAD";
}

abbrev query : Values
query = (codes "b", codes "2" ∷ []) ∷ (codes "a", codes "1" ∷ codes "0" ∷ []) ∷ []

abbrev headers : List (Bytes × Bytes)
headers = (codes "x-amz-security-token", codes "one") ∷ (codes "host", codes "s3.local") ∷ []

abbrev names : List Bytes
names = codes "host" ∷ codes "x-amz-security-token" ∷ []

abbrev first : CanonicalRequest
first = download query headers names

-- The same maps in another order, and a header that is not signed.
abbrev query' : Values
query' = (codes "a", codes "1" ∷ codes "0" ∷ []) ∷ (codes "b", codes "2" ∷ []) ∷ []

abbrev names' : List Bytes
names' = codes "x-amz-security-token" ∷ codes "host" ∷ []

rendered :
    canonical_request small_runtime true first
    ≡ codes
        "GET\n/bucket/key\na=0&a=1&b=2\nhost:s3.local\nx-amz-security-token:<redacted>\n\nhost;x-amz-security-token\nUNSIGNED-PAYLOAD"
unfolding canonical_request sort
rendered = refl

same_text :
    canonical_request small_runtime false first
    ≡ canonical_request small_runtime false (download query' headers names')
unfolding canonical_request sort
same_text = refl

canonical_request-reordered_example :
    canonical_request small_runtime false first
    ≡ canonical_request small_runtime false (download query' headers names')
canonical_request-reordered_example =
    canonical_request-reordered small_runtime false first query' headers names'
      (Permᴰ.swap refl refl) (λ name. refl) (Permᴰ.swap refl refl)

-- Another session token.
abbrev headers' : List (Bytes × Bytes)
headers' = (codes "x-amz-security-token", codes "two") ∷ (codes "host", codes "s3.local") ∷ []

session : is_session small_runtime (codes "x-amz-security-token") ≡ true
unfolding equal_fold
session = refl

elsewhere :
    (name : Bytes)
    → is_session small_runtime name ≡ false
    → header_value name headers ≡ header_value name headers'
unfolding header_value
elsewhere name h = elim (Bool-cases (eqb name (codes "x-amz-security-token"))) [
  | inl e ↦
      let shown : is_session small_runtime name ≡ true =
        ap (is_session small_runtime) ((eqb_iff name (codes "x-amz-security-token")).0 e)
        ∙ session in
      let no : true ≡ false = sym shown ∙ h in cc
  | inr e ↦ rw (e) refl
]

canonical_request-redacted_example :
    canonical_request small_runtime true first
    ≡ canonical_request small_runtime true (download query headers' names)
canonical_request-redacted_example =
    canonical_request-redacted small_runtime first query headers' refl elsewhere

escapes : EscapesLines small_runtime
escapes s = elim (Bool-cases (any (λ c. c == newline) s)) [ inl e ↦ rw (e) refl | inr e ↦ rw (e) e ]

one_line_values :
    (headers : List (Bytes × Bytes))
    → all (λ (k, v). not (any (λ c. c == newline) v)) headers ≡ true
    → (name : Bytes) → Lacks newline (header_value name headers)
unfolding header_value
one_line_values [] h name = refl
one_line_values ((k, v) ∷ headers) h name =
    let (e, g) =
      parts (any (λ c. c == newline) v) (all (λ (k, v). not (any (λ c. c == newline) v)) headers)
        h in
    let rest = one_line_values headers g name in
    elim (Bool-cases (eqb name k)) [ inl n ↦ rw (n) e | inr n ↦ rw (n) rest ]
  where
    parts : (a b : Bool) → (not a && b) ≡ true → (a ≡ false) × (b ≡ true)
    parts false b k = (refl, k)
    parts true b k = cc

one_line : IsOneLine first
unfolding sort leb_bytes
one_line = record {
  method = refl;
  uri = refl;
  values = one_line_values headers refl;
  colons = (refl, (refl, tt));
  lines = (refl, (refl, tt));
}

reordered : IsOneLine (download query' headers names')
unfolding sort leb_bytes
reordered = record {
  method = refl;
  uri = refl;
  values = one_line_values headers refl;
  colons = (refl, (refl, tt));
  lines = (refl, (refl, tt));
}

canonical_request-injective_example :
    (codes "GET" ≡ codes "GET")
    × (wire_uri first ≡ wire_uri first)
    × (query_text small_runtime false query ≡ query_text small_runtime false query')
    × (sorted_names first ≡ sorted_names (download query' headers names'))
    × (values_of headers (sorted_names first)
        ≡ values_of headers (sorted_names (download query' headers names')))
    × (first.content_hash ≡ first.content_hash)
canonical_request-injective_example =
    canonical_request-injective small_runtime first (download query' headers names') escapes
      one_line reordered same_text
