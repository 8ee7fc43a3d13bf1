-- ===== src/Sigv4/Canonical.antt =====
-- pkg/sigv4/verify.go: the canonical request as text, and its redacted rendering.
use bluebottle.Prelude.{
  ℕ, Bool, true, false, ◌&&◌, not, List, [], ◌∷◌, ◌++◌, map, Bytes, codes, eqb, is_empty,
  if◌then◌else◌,
}
use bluebottle.Prelude.Sorting.{sort}
use bluebottle.Strings.{equal_fold}
use bluebottle.Strings.Encoding.{leb_bytes}
use bluebottle.Strings.Spaces.{join}
use bluebottle.Sigv4.Requests.{Runtime, Values, CanonicalRequest}
pub mod Ordering
pub mod Redaction
pub mod Unambiguous

abbrev pub redacted_value : Bytes
redacted_value = codes "<redacted>"

abbrev pub amz_session_name : Bytes
amz_session_name = codes "x-amz-security-token"

-- A key and one of its values.
abbrev pub Param : Type 0
Param = Bytes × Bytes

abbrev pub with_key : Bytes → List Bytes → List Param → List Param
with_key key [] params = params
with_key key (value ∷ values) params = (key, value) ∷ with_key key values params

unfoldable pub query_params : Values → List Param
query_params [] = []
query_params ((key, values) ∷ query) = with_key key values (query_params query)

-- The order of `slices.SortFunc`.
abbrev pub leb_param : Param → Param → Bool
leb_param (k, v) (l, w) = if not (eqb k l) then leb_bytes k l else leb_bytes v w

abbrev pub is_session : Runtime → Bytes → Bool
is_session rt name = equal_fold rt.platform name amz_session_name

unfoldable pub query_pair : Runtime → Bool → Param → Bytes
unfolding equal_fold
query_pair rt redact (key, value) =
    rt.escape_path key
    ++ (codes "=" ++ (if redact && is_session rt key then redacted_value else rt.escape_path value))

unfoldable pub query_text : Runtime → Bool → Values → Bytes
unfolding join query_pair query_params leb_bytes
query_text rt redact query =
    join (codes "&") (map (query_pair rt redact) (sort leb_param (query_params query)))

-- The value of a name in the map of headers, empty where it has none.
unfoldable pub header_value : Bytes → List (Bytes × Bytes) → Bytes
header_value name [] = []
header_value name ((k, v) ∷ headers) =
    let rest = header_value name headers in if eqb name k then v else rest

abbrev pub newline : ℕ
newline = 10

unfoldable pub header_block : Runtime → Bool → List (Bytes × Bytes) → List Bytes → Bytes
unfolding equal_fold header_value
header_block rt redact headers [] = []
header_block rt redact headers (name ∷ names) =
    let rest = header_block rt redact headers names in
    let value =
      if redact && is_session rt name then redacted_value else header_value name headers in
    name ++ (b':' ∷ (value ++ (newline ∷ rest)))

unfoldable pub render : Runtime → Bool → CanonicalRequest → List Bytes → Bytes
unfolding join query_text header_block
render rt redact c signed_headers = join (newline ∷ []) (
    c.method
    ∷ (if is_empty c.uri then codes "/" else c.uri)
    ∷ query_text rt redact c.query
    ∷ header_block rt redact c.headers signed_headers
    ∷ join (codes ";") signed_headers
    ∷ c.content_hash
    ∷ [])

unfoldable pub canonical_request : Runtime → Bool → CanonicalRequest → Bytes
unfolding render leb_bytes
canonical_request rt redact c = render rt redact c (sort leb_bytes c.signed_headers)
