-- ===== src/Strings/Encoding.antt =====
-- Bytes in hexadecimal, and the order of `strings.Compare`.
use bluebottle.Prelude.{
  ℕ, ◌+◌, ◌-◌, ◌/◌, ◌%◌, ◌≡◌, refl, Bool, true, false, ◌&&◌, ◌||◌, [], ◌∷◌, arith, Bytes, ltb, leb,
  if◌then◌else◌,
}
use bluebottle.Prelude.Sorting.{IsLinear}

abbrev pub hex_digit : ℕ → ℕ
hex_digit n = if ltb n 10 then b'0' + n else b'a' + (n - 10)

-- `hex.EncodeToString`
unfoldable pub hex : Bytes → Bytes
hex [] = []
hex (c ∷ s) = hex_digit (c / 16) ∷ hex_digit (c % 16) ∷ hex s

abbrev pub is_hex_digit : ℕ → Bool
is_hex_digit c =
    (leb b'0' c && leb c b'9') || ((leb b'a' c && leb c b'f') || (leb b'A' c && leb c b'F'))

-- `strings.Compare(s, t) <= 0`
unfoldable pub leb_bytes : Bytes → Bytes → Bool
leb_bytes [] t = true
leb_bytes (c ∷ s) [] = false
leb_bytes (c ∷ s) (d ∷ t) =
    let rest = leb_bytes s t in if ltb c d then true else if ltb d c then false else rest

total : (s t : Bytes) → leb_bytes s t ≡ false → leb_bytes t s ≡ true
unfolding leb_bytes
total [] t h = cc
total (c ∷ s) [] h = refl
total (c ∷ s) (d ∷ t) h = ground (arith, total s t)

antisym : (s t : Bytes) → leb_bytes s t ≡ true → leb_bytes t s ≡ true → s ≡ t
unfolding leb_bytes
antisym [] [] h k = refl
antisym [] (d ∷ t) h k = cc
antisym (c ∷ s) [] h k = cc
antisym (c ∷ s) (d ∷ t) h k = ground (arith, antisym s t)

trans : (s t u : Bytes) → leb_bytes s t ≡ true → leb_bytes t u ≡ true → leb_bytes s u ≡ true
unfolding leb_bytes
trans [] t u h k = refl
trans (c ∷ s) [] u h k = cc
trans (c ∷ s) (d ∷ t) [] h k = cc
trans (c ∷ s) (d ∷ t) (e ∷ u) h k = ground (arith, trans s t u)

pub leb_bytes-IsLinear : IsLinear leb_bytes
leb_bytes-IsLinear = record { total = total; antisym = antisym; trans = trans }
