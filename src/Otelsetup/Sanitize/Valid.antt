-- ===== src/Otelsetup/Sanitize/Valid.antt =====
-- pkg/otelsetup/logsanitize.go: values whose strings are valid, and what sanitising makes of a value.
use bluebottle.Prelude.{
  ◌≡◌, refl, sym, ap, ◌∙◌, Bool, true, false, not, ◌&&◌, List, [], ◌∷◌, Bytes, eqb, eqb_iff,
  eqb_refl, all, arith, Bool-cases, inl, inr,
}
use bluebottle.Otelsetup.Sanitize.{
  Value, string, string_slice, slice, dict, scalar, Items, nil, item, Entries, end, entry, Sdk,
  sanitize_string, sanitize_strings, unless_same, sanitize_value, sanitize_items, sanitize_entries,
}

-- Every string in a value is valid.
unfoldable mutual
  pub is_valid : Sdk → Value → Bool
  is_valid sdk (string s) = sdk.valid_string s
  is_valid sdk (string_slice elems) = all sdk.valid_string elems
  is_valid sdk (slice elems) = items_valid sdk elems
  is_valid sdk (dict kvs) = entries_valid sdk kvs
  is_valid sdk (scalar s) = true

  pub items_valid : Sdk → Items → Bool
  items_valid sdk nil = true
  items_valid sdk (item v elems) = is_valid sdk v && items_valid sdk elems

  pub entries_valid : Sdk → Entries → Bool
  entries_valid sdk end = true
  entries_valid sdk (entry key v kvs) =
      sdk.valid_string key && (is_valid sdk v && entries_valid sdk kvs)

unfoldable pub all_entries : (Bytes → Value → Bool) → Entries → Bool
all_entries p end = true
all_entries p (entry key v kvs) = p key v && all_entries p kvs

-- Only entries that are given are kept.
abbrev pub OnlyDrops : (Entries → Entries) → Type 0
OnlyDrops f =
    (p : Bytes → Value → Bool) (kvs : Entries)
    → all_entries p kvs ≡ true
    → all_entries p (f kvs) ≡ true

-- What the standard library and the SDK promise.
pub record IsSdk (sdk : Sdk) : Type 0 where
  pub to_valid : (s : Bytes) → sdk.valid_string (sdk.to_valid s) ≡ true
  pub map_value : OnlyDrops sdk.map_value
  pub set_attributes : OnlyDrops sdk.set_attributes

entries_valid-all_entries :
    (sdk : Sdk) (kvs : Entries)
    → entries_valid sdk kvs ≡ all_entries (λ k v. sdk.valid_string k && is_valid sdk v) kvs
unfolding entries_valid all_entries
entries_valid-all_entries sdk end = refl
entries_valid-all_entries sdk (entry k v kvs) =
    let rest = entries_valid-all_entries sdk kvs in ground arith

pub entries_valid-drops :
    (sdk : Sdk) (f : Entries → Entries)
    → OnlyDrops f
    → (kvs : Entries) → entries_valid sdk kvs ≡ true
    → entries_valid sdk (f kvs) ≡ true
entries_valid-drops sdk f o kvs h =
    entries_valid-all_entries sdk (f kvs)
    ∙ o (λ k v. sdk.valid_string k && is_valid sdk v) kvs
        (sym (entries_valid-all_entries sdk kvs) ∙ h)

pub sanitize_string-is_valid :
    (sdk : Sdk)
    → IsSdk sdk
    → (s : Bytes)
    → (sdk.valid_string (sanitize_string sdk s) ≡ true)
      × (not (eqb (sanitize_string sdk s) s) ≡ not (sdk.valid_string s))
unfolding sanitize_string
sanitize_string-is_valid sdk i s = elim (Bool-cases (sdk.valid_string s)) [
  | inl e ↦ rw (e) (e, rw (eqb_refl s) refl)
  | inr e ↦ rw (e) (i.to_valid s, ap not (differs e (eqb (sdk.to_valid s) s) refl))
]
  where
    differs : sdk.valid_string s ≡ false → (b : Bool) → eqb (sdk.to_valid s) s ≡ b → b ≡ false
    differs e false q = refl
    differs e true q =
        let same = (eqb_iff (sdk.to_valid s) s).0 q in
        sym (i.to_valid s) ∙ ap sdk.valid_string same ∙ e

sanitize_strings-is_valid :
    (sdk : Sdk)
    → IsSdk sdk
    → (elems : List Bytes)
    → (all sdk.valid_string (sanitize_strings sdk elems).0 ≡ true)
      × ((sanitize_strings sdk elems).1 ≡ not (all sdk.valid_string elems))
unfolding sanitize_strings
sanitize_strings-is_valid sdk i [] = (refl, refl)
sanitize_strings-is_valid sdk i (e ∷ elems) =
    let (v, c) = sanitize_string-is_valid sdk i e in
    let (vs, cs) = sanitize_strings-is_valid sdk i elems in ground (arith, v, c, vs, cs)

unless_same-is_valid :
    (sdk : Sdk) (v out : Value) (changed : Bool)
    → is_valid sdk out ≡ true
    → changed ≡ not (is_valid sdk v)
    → (is_valid sdk (unless_same v out changed).0 ≡ true)
      × ((unless_same v out changed).1 ≡ not (is_valid sdk v))
unless_same-is_valid sdk v out true h c = (h, c)
unless_same-is_valid sdk v out false h c = (ground arith, c)

mutual
  unfolding sanitize_value is_valid

  pub sanitize_value-is_valid :
      (sdk : Sdk)
      → IsSdk sdk
      → (v : Value)
      → (is_valid sdk (sanitize_value sdk v).0 ≡ true)
        × ((sanitize_value sdk v).1 ≡ not (is_valid sdk v))
  sanitize_value-is_valid sdk i (string s) = elim (Bool-cases (sdk.valid_string s)) [
    | inl e ↦ rw (e) (e, refl)
    | inr e ↦ rw (e) (i.to_valid s, refl)
  ]
  sanitize_value-is_valid sdk i (string_slice elems) =
      let (v, c) = sanitize_strings-is_valid sdk i elems in
      unless_same-is_valid sdk (string_slice elems) (string_slice (sanitize_strings sdk elems).0)
        (sanitize_strings sdk elems).1 v c
  sanitize_value-is_valid sdk i (slice elems) =
      let (v, c) = sanitize_items-is_valid sdk i elems in
      unless_same-is_valid sdk (slice elems) (slice (sanitize_items sdk elems).0)
        (sanitize_items sdk elems).1 v c
  sanitize_value-is_valid sdk i (dict kvs) =
      let (v, c) = sanitize_entries-is_valid sdk i kvs in
      let out = (sanitize_entries sdk kvs).0 in
      unless_same-is_valid sdk (dict kvs) (dict (sdk.map_value out)) (sanitize_entries sdk kvs).1
        (entries_valid-drops sdk sdk.map_value i.map_value out v) c
  sanitize_value-is_valid sdk i (scalar s) = (refl, refl)

  sanitize_items-is_valid :
      (sdk : Sdk)
      → IsSdk sdk
      → (elems : Items)
      → (items_valid sdk (sanitize_items sdk elems).0 ≡ true)
        × ((sanitize_items sdk elems).1 ≡ not (items_valid sdk elems))
  sanitize_items-is_valid sdk i nil = (refl, refl)
  sanitize_items-is_valid sdk i (item v elems) =
      let (o, c) = sanitize_value-is_valid sdk i v in
      let (os, cs) = sanitize_items-is_valid sdk i elems in ground (arith, o, c, os, cs)

  sanitize_entries-is_valid :
      (sdk : Sdk)
      → IsSdk sdk
      → (kvs : Entries)
      → (entries_valid sdk (sanitize_entries sdk kvs).0 ≡ true)
        × ((sanitize_entries sdk kvs).1 ≡ not (entries_valid sdk kvs))
  sanitize_entries-is_valid sdk i end = (refl, refl)
  sanitize_entries-is_valid sdk i (entry key v kvs) =
      let (o, c) = sanitize_value-is_valid sdk i v in
      let (os, cs) = sanitize_entries-is_valid sdk i kvs in
      elim (Bool-cases (sdk.valid_string key)) [
        | inl e ↦ rw (e) (ground (arith, o, c, os, cs, e))
        | inr e ↦ rw (e) (ground (arith, o, os, e, i.to_valid key))
      ]
