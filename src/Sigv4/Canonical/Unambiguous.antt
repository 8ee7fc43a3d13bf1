-- ===== src/Sigv4/Canonical/Unambiguous.antt =====
-- pkg/sigv4/verify.go: what can be read back from the canonical request.
use bluebottle.Prelude.{
  ℕ, any-append, ||_false, ◌≡◌, refl, sym, ap, ap₂, ◌∙◌, false, ◌||◌, List, [], ◌∷◌, ◌++◌,
  append_assoc, map, Bytes, codes, is_empty, arith, any, if◌then◌else◌, Option, some, ◌==◌,
}
use bluebottle.Prelude.Sorting.{sort}
use bluebottle.Strings.{cut_byte}
use bluebottle.Strings.Cutting.{Lacks, cut_byte_complete}
use bluebottle.Strings.Encoding.{leb_bytes}
use bluebottle.Strings.Spaces.{join}
use bluebottle.Strings.Splitting.{AllLack}
use bluebottle.Sigv4.Requests.{Runtime, Values, CanonicalRequest}
use bluebottle.Sigv4.Canonical.{
  Param, query_params, leb_param, query_pair, newline, query_text, header_value, header_block,
  render, canonical_request,
}

-- A text up to a byte, and behind it.
cut_unique :
    (b : ℕ) (x y x' y' : Bytes)
    → Lacks b x
    → Lacks b x'
    → x ++ (b ∷ y) ≡ x' ++ (b ∷ y')
    → (x ≡ x') × (y ≡ y')
cut_unique b x y x' y' l l' e =
    let p : ◌≡◌ {A = Option (Bytes × Bytes)} (some (x, y)) (some (x', y')) =
      sym (cut_byte_complete b x y l) ∙ ap (cut_byte b) e ∙ cut_byte_complete b x' y' l' in
    (cc, cc)

append_cancel : (x : Bytes) {y z : Bytes} → x ++ y ≡ x ++ z → y ≡ z
append_cancel [] e = e
append_cancel (c ∷ x) e = append_cancel x (cc)

line-append :
    (n v rest t : Bytes)
    → (n ++ (b':' ∷ (v ++ (newline ∷ rest)))) ++ t ≡ n ++ (b':' ∷ (v ++ (newline ∷ (rest ++ t))))
line-append n v rest t =
    append_assoc n (b':' ∷ (v ++ (newline ∷ rest))) t
    ∙ ap (λ x. n ++ (b':' ∷ x)) (append_assoc v (newline ∷ rest) t)

-- A line that names a header is not empty.
line_not_blank : (n r t : Bytes) → Lacks newline n → newline ∷ t ≡ n ++ (b':' ∷ r) → ⊥
line_not_blank [] r t l e = cc
line_not_blank (c ∷ n) r t l e =
    let (k, m) = ||_false (c == newline) (any (λ d. d == newline) n) l in
    let same : newline ≡ c = cc in ground arith

-- The values that the block of headers has, in the order of the names.
abbrev pub values_of : List (Bytes × Bytes) → List Bytes → List Bytes
values_of headers names = map (λ n. header_value n headers) names

abbrev OneLine : List (Bytes × Bytes) → Type 0
OneLine headers = (name : Bytes) → Lacks newline (header_value name headers)

block_unique :
    (rt : Runtime) (h h' : List (Bytes × Bytes))
    → OneLine h
    → OneLine h'
    → (names names' : List Bytes) (t t' : Bytes) → AllLack b':' names
    → AllLack newline names
    → AllLack b':' names'
    → AllLack newline names'
    → header_block rt false h names ++ (newline ∷ t)
      ≡ header_block rt false h' names' ++ (newline ∷ t')
    → (names ≡ names') × (values_of h names ≡ values_of h' names') × (t ≡ t')
unfolding header_block
block_unique rt h h' o o' [] [] t t' c n c' n' e = (refl, refl, cc)
block_unique rt h h' o o' [] (m ∷ ms) t t' c n c' n' e = absurd (
    line_not_blank m _ t n'.0
      (e ∙ line-append m (header_value m h') (header_block rt false h' ms) (newline ∷ t')))
block_unique rt h h' o o' (m ∷ ms) [] t t' c n c' n' e = absurd (
    line_not_blank m _ t' n.0
      (sym e ∙ line-append m (header_value m h) (header_block rt false h ms) (newline ∷ t)))
block_unique rt h h' o o' (m ∷ ms) (k ∷ ks) t t' c n c' n' e =
    let v = header_value m h in
    let w = header_value k h' in
    let rest = header_block rt false h ms ++ (newline ∷ t) in
    let rest' = header_block rt false h' ks ++ (newline ∷ t') in
    let lines : m ++ (b':' ∷ (v ++ (newline ∷ rest))) ≡ k ++ (b':' ∷ (w ++ (newline ∷ rest'))) =
      sym (line-append m v (header_block rt false h ms) (newline ∷ t))
      ∙ e
      ∙ line-append k w (header_block rt false h' ks) (newline ∷ t') in
    let (names, after) =
      cut_unique b':' m (v ++ (newline ∷ rest)) k (w ++ (newline ∷ rest')) c.0 c'.0 lines in
    let (values, more) = cut_unique newline v rest w rest' (o m) (o' k) after in
    let (ns, vs, ts) = block_unique rt h h' o o' ms ks t t' c.1 n.1 c'.1 n'.1 more in
    (ap₂ (λ x xs. x ∷ xs) names ns, ap₂ (λ x xs. x ∷ xs) values vs, ts)

join-Lacks :
    (b : ℕ) (sep : Bytes) (ss : List Bytes) → Lacks b sep → AllLack b ss → Lacks b (join sep ss)
unfolding join
join-Lacks b sep [] l h = refl
join-Lacks b sep (s ∷ []) l (k, h) = k
join-Lacks b sep (s ∷ t ∷ ss) l (k, h) =
    any-append (λ c. c == b) s (sep ++ join sep (t ∷ ss))
    ∙ ap₂ (λ x y. x || y) k
        (any-append (λ c. c == b) sep (join sep (t ∷ ss))
          ∙ ap₂ (λ x y. x || y) l (join-Lacks b sep (t ∷ ss) l h))

-- The documented range of `httpbinding.EscapePath`: unreserved characters and percent signs.
abbrev pub EscapesLines : Runtime → Type 0
EscapesLines rt = (s : Bytes) → Lacks newline (rt.escape_path s)

pairs-AllLack :
    (rt : Runtime)
    → EscapesLines rt
    → (params : List Param) → AllLack newline (map (query_pair rt false) params)
unfolding query_pair
pairs-AllLack rt e [] = tt
pairs-AllLack rt e ((k, v) ∷ params) = (
  any-append (λ c. c == newline) (rt.escape_path k) (codes "=" ++ rt.escape_path v)
      ∙ ap₂ (λ x y. x || y) (e k) (e v),
  pairs-AllLack rt e params,
)

query_text-Lacks :
    (rt : Runtime) → EscapesLines rt → (query : Values) → Lacks newline (query_text rt false query)
unfolding query_text
query_text-Lacks rt e query =
    join-Lacks newline (codes "&") (map (query_pair rt false) (sort leb_param (query_params query)))
      refl (pairs-AllLack rt e (sort leb_param (query_params query)))

-- The names of the signed headers, in the order of the canonical request.
abbrev pub sorted_names : CanonicalRequest → List Bytes
sorted_names c = sort leb_bytes c.signed_headers

abbrev pub wire_uri : CanonicalRequest → Bytes
wire_uri c = if is_empty c.uri then codes "/" else c.uri

-- Method, path and values of headers are on one line each, and no name of a signed header has a
-- newline or a colon.
pub record IsOneLine (c : CanonicalRequest) : Type 0 where
  pub method : Lacks newline c.method
  pub uri : Lacks newline (wire_uri c)
  pub values : (name : Bytes) → Lacks newline (header_value name c.headers)
  pub colons : AllLack b':' (sorted_names c)
  pub lines : AllLack newline (sorted_names c)

-- Nothing signed is ambiguous: two requests with the same canonical text have the same method, path,
-- query text, names of signed headers, values of these and content hash, if their parts are free of
-- newlines, and the names of colons.
pub canonical_request-injective :
    (rt : Runtime) (c c' : CanonicalRequest)
    → EscapesLines rt
    → IsOneLine c
    → IsOneLine c'
    → canonical_request rt false c ≡ canonical_request rt false c'
    → (c.method ≡ c'.method)
      × (wire_uri c ≡ wire_uri c')
      × (query_text rt false c.query ≡ query_text rt false c'.query)
      × (sorted_names c ≡ sorted_names c')
      × (values_of c.headers (sorted_names c) ≡ values_of c'.headers (sorted_names c'))
      × (c.content_hash ≡ c'.content_hash)
unfolding canonical_request render join
canonical_request-injective rt c c' esc i i' e =
    let q = query_text rt false c.query in
    let q' = query_text rt false c'.query in
    let h = header_block rt false c.headers (sorted_names c) in
    let h' = header_block rt false c'.headers (sorted_names c') in
    let l = join (codes ";") (sorted_names c) in
    let l' = join (codes ";") (sorted_names c') in
    let t = l ++ (newline ∷ c.content_hash) in
    let t' = l' ++ (newline ∷ c'.content_hash) in
    let (m, e1) =
      cut_unique newline c.method
        (wire_uri c ++ (newline ∷ (q ++ (newline ∷ (h ++ (newline ∷ t)))))) c'.method
        (wire_uri c' ++ (newline ∷ (q' ++ (newline ∷ (h' ++ (newline ∷ t')))))) i.method i'.method
        e in
    let (u, e2) =
      cut_unique newline (wire_uri c) (q ++ (newline ∷ (h ++ (newline ∷ t)))) (wire_uri c')
        (q' ++ (newline ∷ (h' ++ (newline ∷ t')))) i.uri i'.uri e1 in
    let (qs, e3) =
      cut_unique newline q (h ++ (newline ∷ t)) q' (h' ++ (newline ∷ t'))
        (query_text-Lacks rt esc c.query) (query_text-Lacks rt esc c'.query) e2 in
    let (ns, vs, ts) =
      block_unique rt c.headers c'.headers i.values i'.values (sorted_names c) (sorted_names c') t
        t' i.colons i.lines i'.colons i'.lines e3 in
    let cut : l ++ (newline ∷ c.content_hash) ≡ l ++ (newline ∷ c'.content_hash) =
      ts ∙ ap (λ x. join (codes ";") x ++ (newline ∷ c'.content_hash)) (sym ns) in
    let rest : newline ∷ c.content_hash ≡ newline ∷ c'.content_hash = append_cancel l cut in
    (m, u, qs, ns, vs, cc)
