-- ===== src/Strings/Spaces.antt =====
-- Trimming and splitting at spaces. A text with bytes above 127 may have spaces beyond ASCII, which
-- tables of Go's `unicode` package tell; a caller that meets such texts has them as a parameter.
use bluebottle.Prelude.{
  ℕ, Bool, ◌&&◌, ◌||◌, List, [], ◌∷◌, ◌++◌, Bytes, ◌==◌, leb, if◌then◌else◌, is_empty,
}

-- The ASCII space bytes.
abbrev pub is_space : ℕ → Bool
is_space c = c == b' ' || (leb 9 c && leb c 13)

unfoldable pub trim_right : Bytes → Bytes
trim_right [] = []
trim_right (c ∷ s) = let rest = trim_right s in if is_space c && is_empty rest then [] else c ∷ rest

unfoldable pub trim_left : Bytes → Bytes
trim_left [] = []
trim_left (c ∷ s) = let rest = trim_left s in if is_space c then rest else c ∷ s

-- `bytes.TrimSpace` and `strings.TrimSpace`, for a text that begins and ends with ASCII.
abbrev pub trim_space : Bytes → Bytes
trim_space s = trim_right (trim_left s)

-- `strings.Join`
unfoldable pub join : Bytes → List Bytes → Bytes
join sep [] = []
join sep (s ∷ []) = s
join sep (s ∷ t ∷ ss) = s ++ (sep ++ join sep (t ∷ ss))

-- The word that the text begins with, which may be empty, and the words behind it.
unfoldable pub leading_word : Bytes → Bytes × List Bytes
leading_word [] = ([], [])
leading_word (c ∷ s) =
    let (word, words) = leading_word s in
    if is_space c then ([], if is_empty word then words else word ∷ words) else (c ∷ word, words)

-- `strings.Fields`, for ASCII.
unfoldable pub fields : Bytes → List Bytes
unfolding leading_word
fields s = let (word, words) = leading_word s in if is_empty word then words else word ∷ words
