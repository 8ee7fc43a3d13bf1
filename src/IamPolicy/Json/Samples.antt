-- ===== src/IamPolicy/Json/Samples.antt =====
-- pkg/iampolicy/types.go: a string list that is written and read, and one that does not come back.
use bluebottle.Prelude.{◌≡◌, refl, all, map, some, [], ◌∷◌, codes, ltb, if◌then◌else◌}
use bluebottle.IamPolicy.Json.{
  Slice, Encoding, read_condition_value, read_string_or_arr, write_slice,
}
use bluebottle.IamPolicy.Json.Roundtrip.{IsEncoding, read-write_slice}

-- Only ASCII is valid, and of other bytes a question mark is left.
abbrev ascii : Encoding
ascii = record {
  valid_string = all (λ c. ltb c 128);
  coerced = λ s. if all (λ c. ltb c 128) s then s else map (λ c. if ltb c 128 then c else b'?') s;
}

ascii-IsEncoding : IsEncoding ascii
ascii-IsEncoding s h = rw (h) refl

abbrev actions : Slice
actions = some (codes "s3:GetObject" ∷ codes "s3:PutObject" ∷ [])

lossy :
    read_condition_value (write_slice ascii (some ((255 ∷ codes "x") ∷ [])))
    ≡ some (some (codes "?x" ∷ []))
unfolding read_condition_value write_slice
lossy = refl

read-write_slice_example :
    (read_condition_value (write_slice ascii actions) ≡ some actions)
    × (read_string_or_arr (write_slice ascii actions) ≡ some actions)
read-write_slice_example = read-write_slice ascii actions ascii-IsEncoding refl
