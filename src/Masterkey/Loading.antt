-- ===== src/Masterkey/Loading.antt =====
-- When a master key is read, and how the two permission gates compare.
use bluebottle.Prelude.{
  ℕ, ◌≡◌, refl, sym, ap, ◌∙◌, Bool, true, false, not, ◌↔◌, Option, none, some, arith, Bytes, ◌==◌,
  ==_iff, length, if◌then◌else◌, Result, err, ok,
}
use bluebottle.Masterkey.{
  Crypto, Files, KeyError, master_key_size, others, others_and_group, bit_and, sized, read_content,
  read_gated, read_stat, read_key, Key, new_key, load, load_raw, load_private, load_shared,
  read_shared,
}

-- The file's permissions have no bit of the mask, and it holds this key, which has the right size.
abbrev pub IsKeyFile : Files → Bytes → ℕ → Bytes → Type 0
IsKeyFile files path mask raw =
    ((perm : ℕ) × (files.permissions path ≡ some perm) × (bit_and 9 perm mask ≡ 0))
    × (files.content path ≡ some raw)
    × (length raw ≡ master_key_size)

guard_sound :
    (b : Bool) (e : KeyError) (r : Result KeyError Bytes) (key : Bytes)
    → (if not b then err e else r) ≡ ok key
    → (b ≡ true) × (r ≡ ok key)
guard_sound true e r key h = (refl, h)
guard_sound false e r key h = cc

content_sound :
    (content : Option Bytes) (key : Bytes)
    → read_content content ≡ ok key
    → (content ≡ some key) × (length key ≡ master_key_size)
unfolding read_content sized
content_sound none key h = cc
content_sound (some raw) key h =
    let size = length raw in
    let (b, k) = guard_sound (size == master_key_size) (KeyError.wrong_size size) (ok raw) key h in
    let same : raw ≡ key = cc in
    (ap some same, ap length (sym same) ∙ (==_iff size master_key_size).0 b)

content_complete : (key : Bytes) → length key ≡ master_key_size → read_content (some key) ≡ ok key
unfolding read_content sized
content_complete key h = rw (h) refl

-- A key is read exactly when the file has no permission that the mask denies and holds the key's 32
-- bytes.
pub read_key_iff :
    (files : Files) (path : Bytes) (mask : ℕ) (key : Bytes)
    → (read_key files path mask ≡ ok key) ↔ IsKeyFile files path mask key
unfolding read_key read_stat read_gated
read_key_iff files path mask key = (
  sound (files.permissions path) refl,
  λ ((perm, e, b), c, l).
      ap (λ p. read_stat mask p (files.content path)) e
      ∙ ap
          (λ n.
            if not (n == 0)
            then err (KeyError.loose_permissions perm)
            else read_content (files.content path))
          b
      ∙ ap read_content c
      ∙ content_complete key l,
)
  where
    sound :
        (p : Option ℕ)
        → files.permissions path ≡ p
        → read_stat mask p (files.content path) ≡ ok key
        → IsKeyFile files path mask key
    sound none e h = cc
    sound (some perm) e h =
        let (b, r) =
          guard_sound (bit_and 9 perm mask == 0) (KeyError.loose_permissions perm)
            (read_content (files.content path)) key h in
        let (c, l) = content_sound (files.content path) key r in
        ((perm, e, (==_iff (bit_and 9 perm mask) 0).0 b), c, l)

-- Without a bit for the group or others there is none for others.
others-denied : (perm : ℕ) → bit_and 9 perm others_and_group ≡ 0 → bit_and 9 perm others ≡ 0
unfolding bit_and
others-denied perm h = omega arith

-- Whatever `Load` accepts, `LoadShared` accepts as the same key, and `ReadShared` gives the bytes it
-- is made of.
pub load_private-load_shared :
    (lib : Crypto) (files : Files) (path : Bytes) (k : Key lib)
    → load_private lib files path ≡ ok k
    → (load_shared lib files path ≡ ok k)
      × ((raw : Bytes) × (read_shared files path ≡ ok raw) × (new_key lib raw ≡ ok k))
unfolding load_private load_shared load load_raw read_shared
load_private-load_shared lib files path k h = given (read_key files path others_and_group) refl h
  where
    given :
        (r : Result KeyError Bytes)
        → read_key files path others_and_group ≡ r
        → load_raw lib r ≡ ok k
        → (load_shared lib files path ≡ ok k)
          × ((raw : Bytes) × (read_shared files path ≡ ok raw) × (new_key lib raw ≡ ok k))
    given (err e) q g = cc
    given (ok raw) q g =
        let ((perm, p, b), c, l) = (read_key_iff files path others_and_group raw).0 q in
        let shared =
          (read_key_iff files path others raw).1 ((perm, p, others-denied perm b), c, l) in
        (ap (load_raw lib) shared ∙ g, (raw, shared, g))
