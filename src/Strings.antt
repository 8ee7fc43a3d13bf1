-- ===== src/Strings.antt =====
-- The functions of Go's `strings` package that the modelled code calls, over byte lists. Texts with
-- a byte above 127 are folded by Unicode tables, which `Platform` stands for.
use bluebottle.Prelude.{
  ℕ, zero, suc, ◌+◌, ◌-◌, ◌<◌, ◌≡◌, refl, Bool, true, false, ◌&&◌, ◌||◌, Option, none, some, List,
  [], ◌∷◌, map, arith, Bytes, ◌==◌, ltb, leb, if◌then◌else◌, length, any, all, eqb, Option-cases,
  inl, inr,
}
use bluebottle.Prelude.Int.{ℤ}
pub mod Cutting
pub mod Decimal
pub mod Spaces
pub mod Splitting
pub mod Encoding

-- An address of `net/netip`: 32 bits, or 128 bits with a zone.
pub data Addr : Type 0 where
  v4 : ℕ → Addr
  v6 : ℕ → Bytes → Addr

pub record AddrPrefix : Type 0 where
  pub addr : Addr
  pub bits : ℕ

-- What the standard library decides by tables or grammars that are not modelled: Unicode case
-- folding, the text forms of addresses, and the layouts of `time.Parse`, whose result is an instant
-- in nanoseconds from the Unix epoch.
pub record Platform : Type 0 where
  pub wide_lower : Bytes → Bytes
  pub wide_fold : Bytes → Bytes → Bool
  pub parse_addr : Bytes → Option Addr
  pub parse_prefix : Bytes → Option AddrPrefix
  pub parse_time : Bytes → Bytes → Option ℤ

abbrev pub lower_byte : ℕ → ℕ
lower_byte c = if leb b'A' c && leb c b'Z' then c + 32 else c

unfoldable pub is_ascii : Bytes → Bool
is_ascii = all (λ c. ltb c 128)

unfoldable pub to_lower : Platform → Bytes → Bytes
unfolding is_ascii
to_lower lib s = if is_ascii s then map lower_byte s else lib.wide_lower s

-- `strings.EqualFold`
unfoldable pub equal_fold : Platform → Bytes → Bytes → Bool
unfolding is_ascii
equal_fold lib s t =
    if is_ascii s && is_ascii t
    then eqb (map lower_byte s) (map lower_byte t)
    else lib.wide_fold s t

abbrev pub prepend : ℕ → Option (Bytes × Bytes) → Option (Bytes × Bytes)
prepend c none = none
prepend c (some (a, b)) = some (c ∷ a, b)

-- `strings.Cut` at a byte: what stands before the first `b`, and behind it.
unfoldable pub cut_byte : ℕ → Bytes → Option (Bytes × Bytes)
cut_byte b [] = none
cut_byte b (c ∷ s) = if c == b then some ([], s) else prepend c (cut_byte b s)

-- The text before the first `${`, and behind it.
unfoldable pub cut_open : Bytes → Option (Bytes × Bytes)
cut_open [] = none
cut_open (c ∷ []) = none
cut_open (c ∷ d ∷ s) = if c == b'$' && d == b'{' then some ([], s) else prepend c (cut_open (d ∷ s))

-- `strings.ContainsAny` and `strings.IndexByte(chars, c) >= 0`
abbrev pub has_byte : Bytes → ℕ → Bool
has_byte chars c = any (λ d. d == c) chars

abbrev pub contains_any : Bytes → Bytes → Bool
contains_any s chars = any (has_byte chars) s

abbrev cons_some : ℕ → Option Bytes → Option Bytes
cons_some c none = none
cons_some c (some s) = some (c ∷ s)

-- `strings.CutSuffix`: the text before the suffix, if it ends so.
unfoldable pub cut_suffix : Bytes → Bytes → Option Bytes
cut_suffix [] suffix = if eqb [] suffix then some [] else none
cut_suffix (c ∷ s) suffix =
    if eqb (c ∷ s) suffix then some [] else cons_some c (cut_suffix s suffix)

-- `strings.CutPrefix`
unfoldable pub cut_prefix : Bytes → Bytes → Option Bytes
cut_prefix s [] = some s
cut_prefix [] (d ∷ prefix) = none
cut_prefix (c ∷ s) (d ∷ prefix) = if c == d then cut_prefix s prefix else none

-- `strings.SplitN(s, ":", n)`
unfoldable pub split_n : ℕ → Bytes → List Bytes
unfolding cut_byte
split_n zero s = []
split_n (suc zero) s = s ∷ []
split_n (suc (suc n)) s = elim (cut_byte b':' s) [
  | none ↦ s ∷ []
  | some (a, b) ↦ a ∷ split_n (suc n) b
]

pub cut_byte_shorter :
    (b : ℕ) (s : Bytes) {x y : Bytes} → cut_byte b s ≡ some (x, y) → length y < length s
unfolding cut_byte
cut_byte_shorter b [] h = cc
cut_byte_shorter b (c ∷ s) {x} {y} h = elim (Option-cases (cut_byte b s)) [
  | inl e ↦ ground arith
  | inr (p, e) ↦ ground (arith, cut_byte_shorter b s {x = p.0} {y = p.1} e)
]

pub cut_open_shorter : (s : Bytes) {x y : Bytes} → cut_open s ≡ some (x, y) → length y < length s
unfolding cut_open
cut_open_shorter [] h = cc
cut_open_shorter (c ∷ []) h = cc
cut_open_shorter (c ∷ d ∷ s) {x} {y} h = elim (Option-cases (cut_open (d ∷ s))) [
  | inl e ↦ ground arith
  | inr (p, e) ↦ ground (arith, cut_open_shorter (d ∷ s) {x = p.0} {y = p.1} e)
]
