-- ===== src/Sigv4/Parsing/Required.antt =====
-- pkg/sigv4/parse.go: the headers that `parseHeaders` requires to be signed.
use bluebottle.Prelude.{
  ◌≡◌, ◌≢◌, ◌++◌, is_some, refl, sym, subst, Bool, true, false, not, ◌&&◌, ◌||◌, inl, inr, List, [],
  ◌∷◌, Bytes, codes, eqb, eqb_refl, eqb_iff, any, all, all_mono, arith, if◌then◌else◌, Bool-cases,
  Option, none, some, ok,
}
use bluebottle.Prelude.Int.{ℤ, pos, negsuc}
use bluebottle.Strings.{to_lower}
use bluebottle.Strings.Decimal.{format_int}
use bluebottle.Strings.Splitting.{split_byte}
use bluebottle.Sigv4.Requests.{Runtime, trim, Request, Values}
use bluebottle.Sigv4.Parsing.{
  Headers, put, put_length, canonical_header_value, snapshot, request_headers, name_set,
  is_required, unsigned, checked, parse_headers,
}

-- The map has an entry under the name.
abbrev pub has_name : Bytes → Headers → Bool
has_name name headers = any (λ (k, v). eqb name k) headers

put_kept :
    (name k v : Bytes) (headers : Headers)
    → has_name name headers ≡ true
    → has_name name (put k v headers) ≡ true
unfolding put
put_kept name k v [] h = cc
put_kept name k v ((l, w) ∷ headers) h = elim (Bool-cases (eqb k l)) [
  | inl e ↦
      rw (e) (subst (λ x. (eqb name x || has_name name headers) ≡ true) (sym ((eqb_iff k l).0 e)) h)
  | inr e ↦ rw (e) (ground (arith, put_kept name k v headers))
]

put_here : (k v : Bytes) (headers : Headers) → has_name k (put k v headers) ≡ true
unfolding put
put_here k v [] = rw (eqb_refl k) refl
put_here k v ((l, w) ∷ headers) = elim (Bool-cases (eqb k l)) [
  | inl e ↦ rw (e, eqb_refl k) refl
  | inr e ↦ rw (e) (rw (e) (put_here k v headers))
]

snapshot_kept :
    (rt : Runtime) (more : Values) (name : Bytes) (headers : Headers)
    → has_name name headers ≡ true
    → has_name name (snapshot rt more headers) ≡ true
unfolding snapshot
snapshot_kept rt [] name headers h = h
snapshot_kept rt ((k, vs) ∷ more) name headers h =
    let k' = to_lower rt.platform k in
    let v = canonical_header_value rt vs in
    snapshot_kept rt more name (put k' v headers) (put_kept name k' v headers h)

-- Every header of the request is in the map, under its name in lower case.
abbrev pub covers : Runtime → Values → Headers → Bool
covers rt values headers = all (λ (name, vs). has_name (to_lower rt.platform name) headers) values

snapshot-covers :
    (rt : Runtime) (values : Values) (headers : Headers)
    → covers rt values (snapshot rt values headers) ≡ true
unfolding snapshot
snapshot-covers rt [] headers = refl
snapshot-covers rt ((k, vs) ∷ more) headers =
    let k' = to_lower rt.platform k in
    let v = canonical_header_value rt vs in
    rw
      (
        snapshot_kept rt more k' (put k' v headers) (put_here k' v headers),
        snapshot-covers rt more (put k' v headers),
      )
      refl

put_length_kept :
    (len : ℤ) (name : Bytes) (headers : Headers)
    → has_name name headers ≡ true
    → has_name name (put_length len headers) ≡ true
put_length_kept (negsuc n) name headers h = h
put_length_kept (pos n) name headers h =
    put_kept name (codes "content-length") (format_int (pos n)) headers h

request_headers-host :
    (rt : Runtime) (req : Request) → has_name (codes "host") (request_headers rt req) ≡ true
unfolding request_headers
request_headers-host rt req =
    put_length_kept req.content_length (codes "host") _
      (put_here (codes "host") (trim rt req.host) (snapshot rt req.headers []))

request_headers-covers :
    (rt : Runtime) (req : Request) → covers rt req.headers (request_headers rt req) ≡ true
unfolding request_headers
request_headers-covers rt req =
    let h = snapshot rt req.headers [] in
    all_mono (λ (name, vs). has_name (to_lower rt.platform name) h)
      (λ (name, vs). has_name (to_lower rt.platform name) (request_headers rt req))
      (λ (name, vs) k.
        put_length_kept req.content_length (to_lower rt.platform name) _
          (put_kept (to_lower rt.platform name) (codes "host") (trim rt req.host) h k))
      req.headers (snapshot-covers rt req.headers [])

unsigned-none :
    (signed : List Bytes) (headers : Headers) (name : Bytes)
    → unsigned signed headers ≡ none
    → has_name name headers ≡ true
    → is_required name ≡ true
    → any (eqb name) signed ≡ true
unfolding unsigned
unsigned-none signed [] name h k r = cc
unsigned-none signed ((l, w) ∷ headers) name h k r =
    let (b, n) = guard (is_required l && not (any (eqb l) signed)) h in
    let later = unsigned-none signed headers name n in
    elim (Bool-cases (eqb name l)) [
      | inl e ↦
          let same = (eqb_iff name l).0 e in
          let there : any (eqb l) signed ≡ true =
            signed_of (is_required l) (any (eqb l) signed) b
              (subst (λ x. is_required x ≡ true) same r) in
          subst (λ x. any (eqb x) signed ≡ true) (sym same) there
      | inr e ↦ later (subst (λ b. (b || has_name name headers) ≡ true) e k) r
    ]
  where
    guard :
        (b : Bool) {rest : Option Bytes}
        → (if b then some l else rest) ≡ none
        → (b ≡ false) × (rest ≡ none)
    guard true g = cc
    guard false g = (refl, g)

    signed_of : (r a : Bool) → (r && not a) ≡ false → r ≡ true → a ≡ true
    signed_of r a g h = ground arith

checked_sound :
    (headers : Headers) (signed : List Bytes) (o : Option Bytes) (h : Headers) (names : List Bytes)
    → checked headers signed o ≡ ok (h, names)
    → (o ≡ none) × (signed ≡ names)
checked_sound headers signed none h names k = (refl, cc)
checked_sound headers signed (some name) h names k = cc

-- The names, in lower case, that must be signed if a request has them.
pub data MustBeSigned : Bytes → Type 0 where
  host : MustBeSigned (codes "host")
  content_md5 : MustBeSigned (codes "content-md5")
  amz : (rest : Bytes) → rest ≢ codes "content-sha256" → MustBeSigned (codes "x-amz-" ++ rest)

-- A request always has a host, and has its headers.
abbrev pub carries : Runtime → Request → Bytes → Bool
carries rt req name =
    eqb name (codes "host") || any (λ (n, vs). eqb name (to_lower rt.platform n)) req.headers

MustBeSigned-is_required : {name : Bytes} → MustBeSigned name → is_required name ≡ true
unfolding is_required is_some
MustBeSigned-is_required host = refl
MustBeSigned-is_required content_md5 = refl
MustBeSigned-is_required (amz rest h) = elim (Bool-cases (eqb rest (codes "content-sha256"))) [
  | inl e ↦ absurd (h ((eqb_iff rest (codes "content-sha256")).0 e))
  | inr e ↦ rw (e) refl
]

covers-has_name :
    (rt : Runtime) (values : Values) (headers : Headers) (name : Bytes)
    → covers rt values headers ≡ true
    → any (λ (n, vs). eqb name (to_lower rt.platform n)) values ≡ true
    → has_name name headers ≡ true
covers-has_name rt [] headers name c h = cc
covers-has_name rt ((k, vs) ∷ values) headers name c h =
    let here = has_name (to_lower rt.platform k) headers in
    let (now, later) = both here (covers rt values headers) c in
    elim (Bool-cases (eqb name (to_lower rt.platform k))) [
      | inl e ↦
          subst (λ x. has_name x headers ≡ true) (sym ((eqb_iff name (to_lower rt.platform k)).0 e))
            now
      | inr e ↦
          covers-has_name rt values headers name later (
            subst (λ b. (b || any (λ (n, vs). eqb name (to_lower rt.platform n)) values) ≡ true) e
              h)
    ]
  where
    both : (a b : Bool) → (a && b) ≡ true → (a ≡ true) × (b ≡ true)
    both a b k = ground arith

carries-has_name :
    (rt : Runtime) (req : Request) (name : Bytes)
    → carries rt req name ≡ true
    → has_name name (request_headers rt req) ≡ true
carries-has_name rt req name h = elim (Bool-cases (eqb name (codes "host"))) [
  | inl e ↦
      subst (λ x. has_name x (request_headers rt req) ≡ true)
        (sym ((eqb_iff name (codes "host")).0 e)) (request_headers-host rt req)
  | inr e ↦
      covers-has_name rt req.headers (request_headers rt req) name (request_headers-covers rt req) (
        subst (λ b. (b || any (λ (n, vs). eqb name (to_lower rt.platform n)) req.headers) ≡ true) e
          h)
]

pub parse_headers_signed :
    (rt : Runtime) (req : Request) (raw : Bytes) (h : Headers) (signed : List Bytes) (name : Bytes)
    → parse_headers rt req raw ≡ ok (h, signed)
    → carries rt req name ≡ true
    → MustBeSigned name
    → any (eqb name) signed ≡ true
unfolding parse_headers
parse_headers_signed rt req raw h signed name e c m =
    let headers = request_headers rt req in
    let names = name_set rt (split_byte b';' raw) [] in
    let (n, same) = checked_sound headers names (unsigned names headers) h signed e in
    unsigned-none signed headers name (subst (λ x. unsigned x headers ≡ none) same n)
      (carries-has_name rt req name c) (MustBeSigned-is_required m)
