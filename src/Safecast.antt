-- ===== src/Safecast.antt =====
-- pkg/safecast/safecast.go: conversions between integer types that saturate. A Go conversion between
-- integer types wraps, which `uint` and `int64` write out; `int` has 64 bits.
use bluebottle.Prelude.{ℕ, ◌+◌, ◌-◌, ◌%◌, ◌^◌, ◌≤◌, Bool, true, false, ltb, if◌then◌else◌}
use bluebottle.Prelude.Int.{ℤ, pos, negsuc, ltb_ℤ}
pub mod Nearest
mod Samples

-- The conversion of a signed integer to an unsigned one of `w` bits.
unfoldable pub uint : ℕ → ℤ → ℕ
uint w (pos n) = n % 2 ^ w
uint w (negsuc n) = 2 ^ w - 1 - n % 2 ^ w

-- The conversion of an unsigned integer of 64 bits to a signed one.
unfoldable pub int64 : ℕ → ℤ
int64 n = if ltb n (2 ^ 63) then pos n else negsuc (2 ^ 64 - 1 - n)

abbrev pub max_uint8 : ℕ
max_uint8 = 255

abbrev pub max_uint16 : ℕ
max_uint16 = 65535

abbrev pub max_uint32 : ℕ
max_uint32 = 4294967295

abbrev pub max_uint64 : ℕ
max_uint64 = 18446744073709551615

abbrev pub max_int64 : ℕ
max_int64 = 9223372036854775807

unfoldable pub int64_to_uint64 : ℤ → ℕ
unfolding uint
int64_to_uint64 v = if ltb_ℤ v (pos 0) then 0 else uint 64 v

unfoldable pub int64_to_uint32 : ℤ → ℕ
unfolding uint
int64_to_uint32 v =
    if ltb_ℤ v (pos 0) then 0 else if ltb_ℤ (pos max_uint32) v then max_uint32 else uint 32 v

unfoldable pub int_to_uint8 : ℤ → ℕ
unfolding uint
int_to_uint8 v =
    if ltb_ℤ v (pos 0) then 0 else if ltb_ℤ (pos max_uint8) v then max_uint8 else uint 8 v

unfoldable pub int_to_uint16 : ℤ → ℕ
unfolding uint
int_to_uint16 v =
    if ltb_ℤ v (pos 0) then 0 else if ltb_ℤ (pos max_uint16) v then max_uint16 else uint 16 v

unfoldable pub int_to_uint32 : ℤ → ℕ
unfolding uint
int_to_uint32 v =
    if ltb_ℤ v (pos 0) then 0 else if ltb_ℤ (pos max_uint32) v then max_uint32 else uint 32 v

unfoldable pub int_to_uint64 : ℤ → ℕ
unfolding uint
int_to_uint64 v = if ltb_ℤ v (pos 0) then 0 else uint 64 v

unfoldable pub uint64_to_int : ℕ → ℤ
unfolding int64
uint64_to_int v = if ltb max_int64 v then pos max_int64 else int64 v

unfoldable pub uint64_to_int64 : ℕ → ℤ
unfolding int64
uint64_to_int64 v = if ltb max_int64 v then pos max_int64 else int64 v

unfoldable pub uint64_to_uint32 : ℕ → ℕ
uint64_to_uint32 v = if ltb max_uint32 v then max_uint32 else v % 2 ^ 32
