-- ===== src/IamPolicy/Json.antt =====
-- pkg/iampolicy/types.go: how condition values and string lists are read from JSON and written. The
-- decoder and the encoder of encoding/json stand between these values and the text: a `Json` is what the
-- decoder gives, and for the writers what it gives of the text that the encoder makes.
use bluebottle.Prelude.{ℕ, Bool, true, false, Option, none, some, List, [], ◌∷◌, map, Bytes, codes}
pub mod Roundtrip
mod Samples

-- A JSON value that is no array, or an element of one, as the decoder gives it: numbers as they are
-- spelled, and of an object or an array inside an array only that it is one.
pub data Element : Type 0 where
  null : Element
  bool : Bool → Element
  number : Bytes → Element
  string : Bytes → Element
  nested : Element

pub data Json : Type 0 where
  single : Element → Json
  array : List Element → Json

-- A slice: `none` is nil, which is not the empty slice.
abbrev pub Slice : Type 0
Slice = Option (List Bytes)

unfoldable pub format_bool : Bool → Bytes
format_bool true = codes "true"
format_bool false = codes "false"

unfoldable pub condition_scalar : Element → Option Bytes
unfolding format_bool
condition_scalar (string s) = some s
condition_scalar (bool b) = some (format_bool b)
condition_scalar (number n) = some n
condition_scalar null = none
condition_scalar nested = none

abbrev pub cons_both : Option Bytes → Option (List Bytes) → Option (List Bytes)
cons_both none r = none
cons_both (some s) none = none
cons_both (some s) (some ss) = some (s ∷ ss)

unfoldable pub condition_scalars : List Element → Option (List Bytes)
unfolding condition_scalar
condition_scalars [] = some []
condition_scalars (v ∷ vs) = cons_both (condition_scalar v) (condition_scalars vs)

abbrev pub as_slice : Option (List Bytes) → Option Slice
as_slice none = none
as_slice (some ss) = some (some ss)

abbrev pub as_single : Option Bytes → Option Slice
as_single none = none
as_single (some s) = some (some (s ∷ []))

-- `ConditionValue.UnmarshalJSON`; the outer `none` is an error.
unfoldable pub read_condition_value : Json → Option Slice
unfolding condition_scalar condition_scalars
read_condition_value (array vs) = as_slice (condition_scalars vs)
read_condition_value (single null) = some none
read_condition_value (single v) = as_single (condition_scalar v)

-- The decoder's rule for a string inside a `[]string`, whose zero value a null leaves.
unfoldable pub string_element : Element → Option Bytes
string_element (string s) = some s
string_element null = some []
string_element (bool b) = none
string_element (number n) = none
string_element nested = none

unfoldable pub string_elements : List Element → Option (List Bytes)
unfolding string_element
string_elements [] = some []
string_elements (v ∷ vs) = cons_both (string_element v) (string_elements vs)

-- `StringOrArr.UnmarshalJSON`
unfoldable pub read_string_or_arr : Json → Option Slice
unfolding string_elements
read_string_or_arr (single null) = some none
read_string_or_arr (single (string s)) = some (some (s ∷ []))
read_string_or_arr (single v) = none
read_string_or_arr (array vs) = as_slice (string_elements vs)

-- What encoding/json makes of the bytes of a string in writing and reading it: each that is no part of
-- valid UTF-8 becomes the replacement character.
pub record Encoding : Type 0 where
  pub valid_string : Bytes → Bool
  pub coerced : Bytes → Bytes

-- `MarshalJSON` of both types, which have the same body.
unfoldable pub write_slice : Encoding → Slice → Json
write_slice enc none = single null
write_slice enc (some []) = array []
write_slice enc (some (s ∷ [])) = single (string (enc.coerced s))
write_slice enc (some (s ∷ t ∷ ss)) = array (map (λ x. string (enc.coerced x)) (s ∷ t ∷ ss))
