-- ===== src/Prelude/Text.antt =====
-- A Go string is the list of its bytes, each a number below 256.
use Prim.Native.Nat.{ℕ}
use Prim.Native.Char.{code}
use Prim.Native.String.{String}
use mathlib.Core.Path.{◌≡◌, refl}
use mathlib.Core.Logic.{◌↔◌}
use mathlib.Core.Bool.{Bool, true, false, ◌&&◌}
use mathlib.Core.List.{List, [], ◌∷◌}
use native.Mathlib.Omega.{arith}
use bluebottle.Prelude.Tests.{◌==◌}

abbrev pub Bytes : Type 0
Bytes = List ℕ

-- The bytes of a literal of the source; all of these are ASCII.
abbrev pub codes : String → Bytes
codes String.[] = []
codes (String.◌∷◌ c s) = code c ∷ codes s

-- The `==` of two strings.
abbrev pub eqb : Bytes → Bytes → Bool
eqb [] [] = true
eqb [] (d ∷ t) = false
eqb (c ∷ s) [] = false
eqb (c ∷ s) (d ∷ t) = (c == d) && eqb s t

pub eqb_iff : (s t : Bytes) → (eqb s t ≡ true) ↔ (s ≡ t)
eqb_iff s t = (sound s t, complete s t)
  where
    sound : (s t : Bytes) → eqb s t ≡ true → s ≡ t
    sound [] [] h = refl
    sound [] (d ∷ t) h = cc
    sound (c ∷ s) [] h = cc
    sound (c ∷ s) (d ∷ t) h = ground (arith, sound s t)

    complete : (s t : Bytes) → s ≡ t → eqb s t ≡ true
    complete [] [] h = refl
    complete [] (d ∷ t) h = cc
    complete (c ∷ s) [] h = cc
    complete (c ∷ s) (d ∷ t) h = ground (arith, complete s t)

pub eqb_refl : (s : Bytes) → eqb s s ≡ true
eqb_refl s = (eqb_iff s s).1 refl
