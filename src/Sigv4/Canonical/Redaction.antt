-- ===== src/Sigv4/Canonical/Redaction.antt =====
-- pkg/sigv4/verify.go: the redacted rendering against the session token.
use bluebottle.Prelude.{
  ◌≡◌, refl, sym, subst, ap, ap₂, ◌∙◌, Bool, true, false, not, ◌&&◌, List, [], ◌∷◌, ◌++◌, map,
  Bytes, codes, eqb, eqb_iff, is_empty, if◌then◌else◌, Bool-cases, inl, inr,
}
use bluebottle.Prelude.Sorting.{sort, map-sort}
use bluebottle.Strings.Encoding.{leb_bytes}
use bluebottle.Strings.Spaces.{join}
use bluebottle.Sigv4.Requests.{Runtime, Values, CanonicalRequest}
use bluebottle.Sigv4.Canonical.{
  Param, query_params, leb_param, is_session, redacted_value, newline, query_pair, query_text,
  header_value, header_block, render, canonical_request,
}
use bluebottle.Sigv4.Canonical.Ordering.{leb_param-IsLinear}

-- A parameter without the value of a session token.
abbrev pub hide : Runtime → Param → Param
hide rt (key, value) = (key, if is_session rt key then [] else value)

hide_mono :
    (rt : Runtime) (p q : Param) → leb_param p q ≡ true → leb_param (hide rt p) (hide rt q) ≡ true
hide_mono rt (k, v) (l, w) h = elim (Bool-cases (eqb k l)) [
  | inr n ↦ rw (n) (subst (λ t. (if not t then leb_bytes k l else leb_bytes v w) ≡ true) n h)
  | inl e ↦
      let same : is_session rt k ≡ is_session rt l = ap (is_session rt) ((eqb_iff k l).0 e) in
      rw (e, sym same)
        (values (is_session rt k)
          (subst (λ t. (if not t then leb_bytes k l else leb_bytes v w) ≡ true) e h))
]
  where
    values :
        (b : Bool)
        → leb_bytes v w ≡ true
        → leb_bytes (if b then [] else v) (if b then [] else w) ≡ true
    values true g = unfold leb_bytes in refl
    values false g = g

map_through :
    {A : Type 0} {B : Type 0} (f : A → B) (g : A → A)
    → ((x : A) → f x ≡ f (g x))
    → (l : List A) → map f l ≡ map f (map g l)
map_through f g h [] = refl
map_through f g h (x ∷ l) = ap₂ (λ y ys. y ∷ ys) (h x) (map_through f g h l)

query_pair-hide : (rt : Runtime) (p : Param) → query_pair rt true p ≡ query_pair rt true (hide rt p)
unfolding query_pair
query_pair-hide rt (k, v) = ap (λ t. rt.escape_path k ++ (codes "=" ++ t)) (shown (is_session rt k))
  where
    shown :
        (b : Bool)
        → (if true && b then redacted_value else rt.escape_path v)
          ≡ (if true && b then redacted_value else rt.escape_path (if b then [] else v))
    shown true = refl
    shown false = refl

query_text-hide :
    (rt : Runtime) (q : Values)
    → query_text rt true q
      ≡ join
          (codes "&")
          (map (query_pair rt true) (sort leb_param (map (hide rt) (query_params q))))
unfolding query_text
query_text-hide rt q = ap (join (codes "&")) (
    map_through (query_pair rt true) (hide rt) (query_pair-hide rt)
      (sort leb_param (query_params q))
    ∙ ap (map (query_pair rt true))
        (map-sort leb_param leb_param-IsLinear (hide rt) (hide_mono rt) (query_params q)))

header_block-redacted :
    (rt : Runtime) (h h' : List (Bytes × Bytes))
    → ((name : Bytes) → is_session rt name ≡ false → header_value name h ≡ header_value name h')
    → (names : List Bytes) → header_block rt true h names ≡ header_block rt true h' names
unfolding header_block
header_block-redacted rt h h' e [] = refl
header_block-redacted rt h h' e (name ∷ names) =
    ap₂ (λ v rest. name ++ (b':' ∷ (v ++ (newline ∷ rest)))) (shown (is_session rt name) (e name))
      (header_block-redacted rt h h' e names)
  where
    shown :
        (b : Bool)
        → (b ≡ false → header_value name h ≡ header_value name h')
        → (if true && b then redacted_value else header_value name h)
          ≡ (if true && b then redacted_value else header_value name h')
    shown true k = refl
    shown false k = k refl

-- The redacted rendering tells nothing of the session token: it is the same for two requests that
-- agree on everything but the values of headers and query parameters of that name, in any case.
pub canonical_request-redacted :
    (rt : Runtime) (c : CanonicalRequest) (query : Values) (headers : List (Bytes × Bytes))
    → map (hide rt) (query_params c.query) ≡ map (hide rt) (query_params query)
    → ((name : Bytes)
        → is_session rt name ≡ false
        → header_value name c.headers ≡ header_value name headers)
    → canonical_request rt true c
      ≡ canonical_request rt true (record c { query = query; headers = headers })
unfolding canonical_request render
canonical_request-redacted rt c query headers q h =
    let names = sort leb_bytes c.signed_headers in
    ap₂
      (λ x y. join (newline ∷ []) (
        c.method
        ∷ (if is_empty c.uri then codes "/" else c.uri)
        ∷ x
        ∷ y
        ∷ join (codes ";") names
        ∷ c.content_hash
        ∷ []))
      (query_text-hide rt c.query
        ∙ ap (λ t. join (codes "&") (map (query_pair rt true) (sort leb_param t))) q
        ∙ sym (query_text-hide rt query))
      (header_block-redacted rt c.headers headers h names)
