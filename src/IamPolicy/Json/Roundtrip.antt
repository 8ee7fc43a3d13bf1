-- ===== src/IamPolicy/Json/Roundtrip.antt =====
-- pkg/iampolicy/types.go: the writers of condition values and string lists against their readers.
use bluebottle.Prelude.{
  ◌≡◌, refl, ap, ap₂, ◌∙◌, Bool, true, ◌&&◌, all, none, some, List, [], ◌∷◌, map, Bytes, arith,
}
use bluebottle.IamPolicy.Json.{
  string, Slice, condition_scalar, condition_scalars, as_slice, read_condition_value,
  string_element, string_elements, read_string_or_arr, Encoding, write_slice,
}

-- The strings of a slice as they come back.
abbrev coerced_slice : Encoding → Slice → Slice
coerced_slice enc none = none
coerced_slice enc (some ss) = some (map enc.coerced ss)

condition_scalars-map :
    (enc : Encoding) (ss : List Bytes)
    → condition_scalars (map (λ x. string (enc.coerced x)) ss) ≡ some (map enc.coerced ss)
unfolding condition_scalars condition_scalar
condition_scalars-map enc [] = refl
condition_scalars-map enc (s ∷ ss) = rw (condition_scalars-map enc ss) refl

string_elements-map :
    (enc : Encoding) (ss : List Bytes)
    → string_elements (map (λ x. string (enc.coerced x)) ss) ≡ some (map enc.coerced ss)
unfolding string_elements string_element
string_elements-map enc [] = refl
string_elements-map enc (s ∷ ss) = rw (string_elements-map enc ss) refl

read-write_coerced :
    (enc : Encoding) (v : Slice)
    → (read_condition_value (write_slice enc v) ≡ some (coerced_slice enc v))
      × (read_string_or_arr (write_slice enc v) ≡ some (coerced_slice enc v))
unfolding read_condition_value read_string_or_arr write_slice condition_scalar condition_scalars
    string_elements
read-write_coerced enc none = (refl, refl)
read-write_coerced enc (some []) = (refl, refl)
read-write_coerced enc (some (s ∷ [])) = (refl, refl)
read-write_coerced enc (some (s ∷ t ∷ ss)) = (
  ap as_slice (condition_scalars-map enc (s ∷ t ∷ ss)),
  ap as_slice (string_elements-map enc (s ∷ t ∷ ss)),
)

-- Valid strings are written as they are.
abbrev pub IsEncoding : Encoding → Type 0
IsEncoding enc = (s : Bytes) → enc.valid_string s ≡ true → enc.coerced s ≡ s

abbrev pub slice_valid : Encoding → Slice → Bool
slice_valid enc none = true
slice_valid enc (some ss) = all enc.valid_string ss

coerced_slice-valid :
    (enc : Encoding)
    → IsEncoding enc
    → (v : Slice) → slice_valid enc v ≡ true
    → coerced_slice enc v ≡ v
coerced_slice-valid enc i none h = refl
coerced_slice-valid enc i (some ss) h = ap some (each ss h)
  where
    each : (ss : List Bytes) → all enc.valid_string ss ≡ true → map enc.coerced ss ≡ ss
    each [] h = refl
    each (s ∷ ss) h =
        let (v, vs) = both (enc.valid_string s) (all enc.valid_string ss) h in
        ap₂ (λ x xs. x ∷ xs) (i s v) (each ss vs)
      where
        both : (a b : Bool) → (a && b) ≡ true → (a ≡ true) × (b ≡ true)
        both a b k = ground arith

-- Reading what is written gives a slice of valid UTF-8 strings back, nil and the empty one included, as a
-- condition value and as a string list; the encoder is taken to keep valid strings as they are.
pub read-write_slice :
    (enc : Encoding) (v : Slice)
    → IsEncoding enc
    → slice_valid enc v ≡ true
    → (read_condition_value (write_slice enc v) ≡ some v)
      × (read_string_or_arr (write_slice enc v) ≡ some v)
read-write_slice enc v i h =
    let (c, l) = read-write_coerced enc v in
    let same = ap some (coerced_slice-valid enc i v h) in (c ∙ same, l ∙ same)
