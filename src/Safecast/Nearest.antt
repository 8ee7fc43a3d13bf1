-- ===== src/Safecast/Nearest.antt =====
-- pkg/safecast/safecast.go: the conversions compared with the nearest value of the target type.
use bluebottle.Prelude.{ℕ, ◌+◌, ◌-◌, ◌≤◌, ◌≡◌, sym, subst, arith, if◌then◌else◌}
use bluebottle.Prelude.Int.{ℤ, pos, negsuc, ltb_ℤ, pos_part, neg_part}
use bluebottle.Safecast.{
  uint, int64, max_uint8, max_uint16, max_uint32, max_uint64, max_int64, int64_to_uint64,
  int64_to_uint32, int_to_uint8, int_to_uint16, int_to_uint32, int_to_uint64, uint64_to_int,
  uint64_to_int64, uint64_to_uint32,
}

-- The number of steps between two integers.
abbrev pub distance : ℤ → ℤ → ℕ
distance x y =
    let m = pos_part x + neg_part y in let n = pos_part y + neg_part x in (m - n) + (n - m)

-- A value of `int64`, which `int` is as well.
abbrev pub IsInt64 : ℤ → Type 0
IsInt64 v = (pos_part v ≤ max_int64) × (neg_part v ≤ max_int64 + 1)

-- A value of the unsigned type whose largest value is `high`.
abbrev pub IsUint : ℕ → ℤ → Type 0
IsUint high v = (pos_part v ≤ high) × (neg_part v ≡ 0)

-- `r` is a value of the type `T`, and no value of `T` is nearer to `v`.
abbrev pub IsNearest : (ℤ → Type 0) → ℤ → ℤ → Type 0
IsNearest T v r = T r × ((other : ℤ) → T other → distance v r ≤ distance v other)

abbrev clamp : ℕ → ℤ → ℕ
clamp high v = if ltb_ℤ v (pos 0) then 0 else if ltb_ℤ (pos high) v then high else pos_part v

clamp-IsNearest : (high : ℕ) (v : ℤ) → IsNearest (IsUint high) v (pos (clamp high v))
clamp-IsNearest high (pos n) = ((ground arith, ground arith), λ other h. ground arith)
clamp-IsNearest high (negsuc n) = ((ground arith, ground arith), λ other h. ground arith)

int64_to_uint64-clamp : (v : ℤ) → IsInt64 v → int64_to_uint64 v ≡ clamp max_uint64 v
unfolding int64_to_uint64 uint
int64_to_uint64-clamp (pos n) h = ground arith
int64_to_uint64-clamp (negsuc n) h = ground arith

int64_to_uint32-clamp : (v : ℤ) → int64_to_uint32 v ≡ clamp max_uint32 v
unfolding int64_to_uint32 uint
int64_to_uint32-clamp (pos n) = ground arith
int64_to_uint32-clamp (negsuc n) = ground arith

int_to_uint8-clamp : (v : ℤ) → int_to_uint8 v ≡ clamp max_uint8 v
unfolding int_to_uint8 uint
int_to_uint8-clamp (pos n) = ground arith
int_to_uint8-clamp (negsuc n) = ground arith

int_to_uint16-clamp : (v : ℤ) → int_to_uint16 v ≡ clamp max_uint16 v
unfolding int_to_uint16 uint
int_to_uint16-clamp (pos n) = ground arith
int_to_uint16-clamp (negsuc n) = ground arith

int_to_uint32-clamp : (v : ℤ) → int_to_uint32 v ≡ clamp max_uint32 v
unfolding int_to_uint32 uint
int_to_uint32-clamp (pos n) = ground arith
int_to_uint32-clamp (negsuc n) = ground arith

int_to_uint64-clamp : (v : ℤ) → IsInt64 v → int_to_uint64 v ≡ clamp max_uint64 v
unfolding int_to_uint64 uint
int_to_uint64-clamp (pos n) h = ground arith
int_to_uint64-clamp (negsuc n) h = ground arith

uint64_to_uint32-clamp : (n : ℕ) → uint64_to_uint32 n ≡ clamp max_uint32 (pos n)
unfolding uint64_to_uint32
uint64_to_uint32-clamp n = ground arith

uint64_to_int-clamp : (n : ℕ) → uint64_to_int n ≡ pos (clamp max_int64 (pos n))
unfolding uint64_to_int int64
uint64_to_int-clamp n = ground arith

uint64_to_int64-clamp : (n : ℕ) → uint64_to_int64 n ≡ pos (clamp max_int64 (pos n))
unfolding uint64_to_int64 int64
uint64_to_int64-clamp n = ground arith

clamp-IsNearest-signed : (n : ℕ) → IsNearest IsInt64 (pos n) (pos (clamp max_int64 (pos n)))
clamp-IsNearest-signed n = ((ground arith, ground arith), λ other h. ground arith)

-- Every conversion from a signed integer gives, for a value of `int64`, the nearest value of its
-- unsigned target type.
pub signed-IsNearest :
    (v : ℤ)
    → IsInt64 v
    → IsNearest (IsUint max_uint64) v (pos (int64_to_uint64 v))
      × IsNearest (IsUint max_uint32) v (pos (int64_to_uint32 v))
      × IsNearest (IsUint max_uint8) v (pos (int_to_uint8 v))
      × IsNearest (IsUint max_uint16) v (pos (int_to_uint16 v))
      × IsNearest (IsUint max_uint32) v (pos (int_to_uint32 v))
      × IsNearest (IsUint max_uint64) v (pos (int_to_uint64 v))
signed-IsNearest v h = (
  nearest max_uint64 (int64_to_uint64-clamp v h),
  nearest max_uint32 (int64_to_uint32-clamp v),
  nearest max_uint8 (int_to_uint8-clamp v),
  nearest max_uint16 (int_to_uint16-clamp v),
  nearest max_uint32 (int_to_uint32-clamp v),
  nearest max_uint64 (int_to_uint64-clamp v h),
)
  where
    nearest : (high : ℕ) {r : ℕ} → r ≡ clamp high v → IsNearest (IsUint high) v (pos r)
    nearest high e = subst (λ n. IsNearest (IsUint high) v (pos n)) (sym e) (clamp-IsNearest high v)

-- Every conversion from a number of 64 bits gives the nearest value of its target type, which is
-- `uint32` or a signed type of 64 bits.
pub unsigned-IsNearest :
    (n : ℕ)
    → IsNearest (IsUint max_uint32) (pos n) (pos (uint64_to_uint32 n))
      × IsNearest IsInt64 (pos n) (uint64_to_int n)
      × IsNearest IsInt64 (pos n) (uint64_to_int64 n)
unsigned-IsNearest n = (
  subst (λ r. IsNearest (IsUint max_uint32) (pos n) (pos r)) (sym (uint64_to_uint32-clamp n))
      (clamp-IsNearest max_uint32 (pos n)),
  subst (IsNearest IsInt64 (pos n)) (sym (uint64_to_int-clamp n)) (clamp-IsNearest-signed n),
  subst (IsNearest IsInt64 (pos n)) (sym (uint64_to_int64-clamp n)) (clamp-IsNearest-signed n),
)
