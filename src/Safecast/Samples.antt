-- ===== src/Safecast/Samples.antt =====
-- Conversions of pkg/safecast at single values.
use bluebottle.Prelude.{◌≡◌, refl, arith}
use bluebottle.Prelude.Int.{pos, negsuc}
use bluebottle.Safecast.{
  uint, max_uint8, max_uint16, max_uint32, max_uint64, int64_to_uint64, int64_to_uint32,
  int_to_uint8, int_to_uint16, int_to_uint32, int_to_uint64, uint64_to_int, uint64_to_int64,
  uint64_to_uint32,
}
use bluebottle.Safecast.Nearest.{IsInt64, IsUint, IsNearest, signed-IsNearest, unsigned-IsNearest}

capped : int_to_uint8 (pos 300) ≡ 255
unfolding int_to_uint8 uint
capped = refl

floored : int_to_uint8 (negsuc 4) ≡ 0
unfolding int_to_uint8 uint
floored = refl

signed-IsNearest_example :
    IsNearest (IsUint max_uint64) (pos 300) (pos (int64_to_uint64 (pos 300)))
    × IsNearest (IsUint max_uint32) (pos 300) (pos (int64_to_uint32 (pos 300)))
    × IsNearest (IsUint max_uint8) (pos 300) (pos (int_to_uint8 (pos 300)))
    × IsNearest (IsUint max_uint16) (pos 300) (pos (int_to_uint16 (pos 300)))
    × IsNearest (IsUint max_uint32) (pos 300) (pos (int_to_uint32 (pos 300)))
    × IsNearest (IsUint max_uint64) (pos 300) (pos (int_to_uint64 (pos 300)))
signed-IsNearest_example = signed-IsNearest (pos 300) (omega arith, omega arith)

unsigned-IsNearest_example :
    IsNearest
      (IsUint max_uint32)
      (pos 9223372036854775808)
      (pos (uint64_to_uint32 9223372036854775808))
    × IsNearest IsInt64 (pos 9223372036854775808) (uint64_to_int 9223372036854775808)
    × IsNearest IsInt64 (pos 9223372036854775808) (uint64_to_int64 9223372036854775808)
unsigned-IsNearest_example = unsigned-IsNearest 9223372036854775808
