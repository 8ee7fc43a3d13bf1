-- ===== src/IamPolicy/Comparison.antt =====
-- What `Compare` methods return, -1, 0 or 1, and the tests of pkg/iampolicy/numbers.go and dates.go
-- on it.
use bluebottle.Prelude.{Bool, true, false, if◌then◌else◌}
use bluebottle.Prelude.Int.{ℤ, ltb_ℤ}

pub data Comparison : Type 0 where
  less same greater : Comparison

abbrev pub reverse_comparison : Comparison → Comparison
reverse_comparison less = greater
reverse_comparison same = same
reverse_comparison greater = less

abbrev pub compare_ℤ : ℤ → ℤ → Comparison
compare_ℤ x y = if ltb_ℤ x y then less else if ltb_ℤ y x then greater else same

-- `cmp == 0`, `cmp < 0` and `cmp > 0`
abbrev pub is_same : Comparison → Bool
is_same same = true
is_same less = false
is_same greater = false

abbrev pub is_less : Comparison → Bool
is_less less = true
is_less same = false
is_less greater = false

abbrev pub is_greater : Comparison → Bool
is_greater greater = true
is_greater same = false
is_greater less = false
