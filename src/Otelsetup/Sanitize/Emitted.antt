-- ===== src/Otelsetup/Sanitize/Emitted.antt =====
-- pkg/otelsetup/logsanitize.go: the record that the next processor gets.
use bluebottle.Prelude.{
  ◌≡◌, ◌↔◌, refl, sym, ap, ◌∙◌, Bool, true, not, ◌&&◌, arith, if◌then◌else◌, Bool-cases, inl, inr,
}
use bluebottle.Otelsetup.Sanitize.{
  Entries, end, entry, Sdk, sanitize_value, Record, is_dirty, sanitize_attributes, on_emit,
}
use bluebottle.Otelsetup.Sanitize.Valid.{
  is_valid, entries_valid, IsSdk, entries_valid-drops, sanitize_string-is_valid,
  sanitize_value-is_valid,
}

is_dirty-is_valid :
    (sdk : Sdk) → IsSdk sdk → (kvs : Entries) → is_dirty sdk kvs ≡ not (entries_valid sdk kvs)
unfolding is_dirty entries_valid
is_dirty-is_valid sdk i end = refl
is_dirty-is_valid sdk i (entry key v kvs) =
    let (o, c) = sanitize_value-is_valid sdk i v in
    let rest = is_dirty-is_valid sdk i kvs in ground (arith, c, rest)

sanitize_attributes-is_valid :
    (sdk : Sdk)
    → IsSdk sdk
    → (kvs : Entries) → entries_valid sdk (sanitize_attributes sdk kvs) ≡ true
unfolding sanitize_attributes entries_valid
sanitize_attributes-is_valid sdk i end = refl
sanitize_attributes-is_valid sdk i (entry key v kvs) =
    rw
      (
        (sanitize_string-is_valid sdk i key).0,
        (sanitize_value-is_valid sdk i v).0,
        sanitize_attributes-is_valid sdk i kvs,
      )
      refl

abbrev pub is_valid_record : Sdk → Record → Bool
is_valid_record sdk r = is_valid sdk r.body && entries_valid sdk r.attributes

-- What `on_emit` does with the two parts, by whether they are valid.
parts-is_valid :
    (sdk : Sdk)
    → IsSdk sdk
    → (r : Record)
    → (is_valid sdk (on_emit sdk r).body ≡ true)
      × (entries_valid sdk (on_emit sdk r).attributes ≡ true)
unfolding on_emit
parts-is_valid sdk i r =
    let (v, c) = sanitize_value-is_valid sdk i r.body in
    let d = is_dirty-is_valid sdk i r.attributes in (body v c, attributes d)
  where
    body :
        is_valid sdk (sanitize_value sdk r.body).0 ≡ true
        → (sanitize_value sdk r.body).1 ≡ not (is_valid sdk r.body)
        → is_valid sdk
            (if (sanitize_value sdk r.body).1 then (sanitize_value sdk r.body).0 else r.body)
          ≡ true
    body v c = elim (Bool-cases (sanitize_value sdk r.body).1) [
      | inl e ↦ rw (e) v
      | inr e ↦ rw (e) (ground (arith, c, e))
    ]

    attributes :
        is_dirty sdk r.attributes ≡ not (entries_valid sdk r.attributes)
        → entries_valid sdk (
            if is_dirty sdk r.attributes
            then sdk.set_attributes (sanitize_attributes sdk r.attributes)
            else r.attributes)
          ≡ true
    attributes d = elim (Bool-cases (is_dirty sdk r.attributes)) [
      | inl e ↦ rw (e) (
          entries_valid-drops sdk sdk.set_attributes i.set_attributes
            (sanitize_attributes sdk r.attributes)
            (sanitize_attributes-is_valid sdk i r.attributes))
      | inr e ↦ rw (e) (ground (arith, d, e))
    ]

on_emit_same :
    (sdk : Sdk) → IsSdk sdk → (r : Record) → is_valid_record sdk r ≡ true → on_emit sdk r ≡ r
unfolding on_emit
on_emit_same sdk i r h =
    let (v, c) = sanitize_value-is_valid sdk i r.body in
    let d = is_dirty-is_valid sdk i r.attributes in
    let (p, q) = both (is_valid sdk r.body) (entries_valid sdk r.attributes) h in
    rw (c, p, d, q) refl
  where
    both : (a b : Bool) → (a && b) ≡ true → (a ≡ true) × (b ≡ true)
    both a b k = ground arith

-- Every string of the record that the next processor gets is valid UTF-8: the body and the keys and
-- values of the attributes, at any depth. The record is passed on as it is exactly when this held of it,
-- provided that `ToValidUTF8` gives valid text and the SDK keeps nothing but entries it is given.
pub on_emit-is_valid_record :
    (sdk : Sdk)
    → IsSdk sdk
    → (r : Record)
    → (is_valid_record sdk (on_emit sdk r) ≡ true)
      × ((on_emit sdk r ≡ r) ↔ (is_valid_record sdk r ≡ true))
on_emit-is_valid_record sdk i r =
    let (b, a) = parts-is_valid sdk i r in
    let whole : is_valid_record sdk (on_emit sdk r) ≡ true = rw (b, a) refl in
    (whole, (λ e. sym (ap (is_valid_record sdk) e) ∙ whole, on_emit_same sdk i r))
