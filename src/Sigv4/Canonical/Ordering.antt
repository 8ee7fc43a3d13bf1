-- ===== src/Sigv4/Canonical/Ordering.antt =====
-- pkg/sigv4/verify.go: the canonical request against the order in which Go ranges over the maps.
use mathlib.Core.List.{Permᴰ}
use bluebottle.Prelude.{
  ◌≡◌, refl, sym, subst, ap, ap₂, ◌∙◌, Bool, true, false, List, [], ◌∷◌, Bytes, eqb_iff, arith,
  if◌then◌else◌, map, ◌&&◌, ◌++◌, codes, is_empty,
}
use bluebottle.Strings.Spaces.{join}
use bluebottle.Prelude.Sorting.{sort, sort-perm, IsLinear}
use bluebottle.Strings.Encoding.{leb_bytes, leb_bytes-IsLinear}
use bluebottle.Sigv4.Requests.{Runtime, Values, CanonicalRequest}
use bluebottle.Sigv4.Canonical.{
  Param, with_key, query_params, leb_param, query_pair, query_text, header_value, header_block,
  render, canonical_request, is_session, redacted_value, newline,
}

-- The order of a key against another, and back, as the two tests of a parameter see it.
total : (p q : Param) → leb_param p q ≡ false → leb_param q p ≡ true
total (k, v) (l, w) h =
    ground
      (arith, leb_bytes-IsLinear.total k l, leb_bytes-IsLinear.total v w, eqb_iff k l, eqb_iff l k)

antisym : (p q : Param) → leb_param p q ≡ true → leb_param q p ≡ true → p ≡ q
antisym (k, v) (l, w) h h' =
    let keys : k ≡ l = ground (arith, leb_bytes-IsLinear.antisym k l, eqb_iff k l, eqb_iff l k) in
    let values : v ≡ w =
      ground
        (arith, leb_bytes-IsLinear.antisym v w, (eqb_iff k l).1 keys, (eqb_iff l k).1 (sym keys)) in
    ap₂ (λ x y. (x, y)) keys values

trans : (p q r : Param) → leb_param p q ≡ true → leb_param q r ≡ true → leb_param p r ≡ true
trans (k, v) (l, w) (m, x) h h' = ground (
  arith,
  leb_bytes-IsLinear.trans k l m,
  leb_bytes-IsLinear.trans v w x,
  leb_bytes-IsLinear.antisym k l,
  leb_bytes-IsLinear.antisym l m,
  eqb_iff k l,
  eqb_iff l m,
  eqb_iff k m,
)

pub leb_param-IsLinear : IsLinear leb_param
leb_param-IsLinear = record { total = total; antisym = antisym; trans = trans }

Permᴰ_refl {ℓ} : {A : Type ℓ} (l : List A) → Permᴰ l l
Permᴰ_refl [] = Permᴰ.nil
Permᴰ_refl (x ∷ l) = Permᴰ.cons refl (Permᴰ_refl l)

with_key-perm :
    (key : Bytes) (values : List Bytes) {xs ys : List Param}
    → Permᴰ xs ys
    → Permᴰ (with_key key values xs) (with_key key values ys)
with_key-perm key [] r = r
with_key-perm key (v ∷ values) r = Permᴰ.cons refl (with_key-perm key values r)

with_key_later :
    (p : Param) (key : Bytes) (values : List Bytes) (xs : List Param)
    → Permᴰ (p ∷ with_key key values xs) (with_key key values (p ∷ xs))
with_key_later p key [] xs = Permᴰ_refl (p ∷ xs)
with_key_later p key (v ∷ values) xs =
    Permᴰ.trans (Permᴰ.swap refl refl) (Permᴰ.cons refl (with_key_later p key values xs))

with_key-swap :
    (k l : Bytes) (vs ws : List Bytes) (xs : List Param)
    → Permᴰ (with_key k vs (with_key l ws xs)) (with_key l ws (with_key k vs xs))
with_key-swap k l [] ws xs = Permᴰ_refl (with_key l ws xs)
with_key-swap k l (v ∷ vs) ws xs =
    Permᴰ.trans (Permᴰ.cons refl (with_key-swap k l vs ws xs))
      (with_key_later (k, v) l ws (with_key k vs xs))

query_params-perm : {q q' : Values} → Permᴰ q q' → Permᴰ (query_params q) (query_params q')
unfolding query_params
query_params-perm Permᴰ.nil = Permᴰ.nil
query_params-perm (Permᴰ.cons {a} {b} {l₁ = xs} {l₂ = ys} e r) =
    subst (λ x. Permᴰ (query_params (a ∷ xs)) (query_params (x ∷ ys))) e
      (with_key-perm a.0 a.1 (query_params-perm r))
query_params-perm (Permᴰ.swap {a} {b} {a'} {b'} {l} e e') =
    subst (λ x. Permᴰ (query_params (a ∷ b ∷ l)) (query_params (x ∷ b' ∷ l))) e'
      (subst (λ x. Permᴰ (query_params (a ∷ b ∷ l)) (query_params (b ∷ x ∷ l))) e
        (with_key-swap a.0 b.0 a.1 b.1 (query_params l)))
query_params-perm (Permᴰ.trans r s) = Permᴰ.trans (query_params-perm r) (query_params-perm s)

query_text-perm :
    (rt : Runtime) (redact : Bool) {q q' : Values}
    → Permᴰ q q'
    → query_text rt redact q ≡ query_text rt redact q'
unfolding query_text
query_text-perm rt redact r =
    ap (λ t. join (codes "&") (map (query_pair rt redact) t))
      (sort-perm leb_param leb_param-IsLinear (query_params-perm r))

-- Two header maps that have the same value under every name.
abbrev pub SameHeaders : List (Bytes × Bytes) → List (Bytes × Bytes) → Type 0
SameHeaders h h' = (name : Bytes) → header_value name h ≡ header_value name h'

header_block-same :
    (rt : Runtime) (redact : Bool) (h h' : List (Bytes × Bytes))
    → SameHeaders h h'
    → (names : List Bytes) → header_block rt redact h names ≡ header_block rt redact h' names
unfolding header_block
header_block-same rt redact h h' e [] = refl
header_block-same rt redact h h' e (name ∷ names) =
    ap₂
      (λ v rest.
        name
        ++ (b':'
            ∷ ((if redact && is_session rt name then redacted_value else v) ++ (newline ∷ rest))))
      (e name) (header_block-same rt redact h h' e names)

-- The canonical request, redacted or not, does not depend on the order in which the maps of the query
-- and of the signed headers are ranged over, nor on how the map of headers is laid out.
pub canonical_request-reordered :
    (rt : Runtime) (redact : Bool) (c : CanonicalRequest) (query : Values)
    (headers : List (Bytes × Bytes)) (signed : List Bytes)
    → Permᴰ c.query query
    → SameHeaders c.headers headers
    → Permᴰ c.signed_headers signed
    → canonical_request rt redact c
      ≡ canonical_request rt redact
          (record c { query = query; headers = headers; signed_headers = signed })
unfolding canonical_request render
canonical_request-reordered rt redact c query headers signed q h s =
    let names = sort leb_bytes c.signed_headers in
    ap₂
      (λ x y. join (newline ∷ []) (
        c.method
        ∷ (if is_empty c.uri then codes "/" else c.uri)
        ∷ x
        ∷ y
        ∷ join (codes ";") names
        ∷ c.content_hash
        ∷ []))
      (query_text-perm rt redact q) (header_block-same rt redact c.headers headers h names)
    ∙ ap (render rt redact (record c { query = query; headers = headers; signed_headers = signed }))
        (sort-perm leb_bytes leb_bytes-IsLinear s)
