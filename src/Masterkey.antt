-- ===== src/Masterkey.antt =====
-- pkg/masterkey/masterkey.go: loading the master key from a file, and sealing texts with it. The
-- ciphers, the hash, the encodings and the source of randomness are those of Go's standard library,
-- and are parameters with the files.
use bluebottle.Prelude.{
  ℕ, zero, suc, ◌+◌, ◌*◌, ◌/◌, ◌%◌, Bool, true, false, not, Option, none, some, ◌++◌, Bytes, ◌==◌,
  ltb, length, take, drop, if◌then◌else◌, Result, err, ok,
}
pub mod Loading
pub mod Sealing
mod Samples

pub record Crypto : Type 1 where
  pub Block : Type 0
  pub Aead : Type 0
  pub new_cipher : Bytes → Option Block
  pub new_gcm : Block → Option Aead
  pub nonce_size : Aead → ℕ
  pub seal : Aead → Bytes → Bytes → Bytes
  pub open_sealed : Aead → Bytes → Bytes → Option Bytes
  pub sha256 : Bytes → Bytes
  pub hex : Bytes → Bytes
  pub encode_base64 : Bytes → Bytes
  pub decode_base64 : Bytes → Option Bytes

-- What `os.Stat` tells of the permission bits, and `os.ReadFile`.
pub record Files : Type 0 where
  pub permissions : Bytes → Option ℕ
  pub content : Bytes → Option Bytes

pub data KeyError : Type 0 where
  stat_failed : KeyError
  loose_permissions : ℕ → KeyError
  read_failed : KeyError
  wrong_size : ℕ → KeyError
  cipher_failed : KeyError
  gcm_failed : KeyError

abbrev pub master_key_size : ℕ
master_key_size = 32

-- `0o077`
abbrev pub others_and_group : ℕ
others_and_group = 63

-- `0o007`
abbrev pub others : ℕ
others = 7

-- The `&` of two numbers, of their lowest bits as many as the first argument.
unfoldable pub bit_and : ℕ → ℕ → ℕ → ℕ
bit_and zero m n = 0
bit_and (suc bits) m n = (m % 2) * (n % 2) + 2 * bit_and bits (m / 2) (n / 2)

unfoldable pub sized : Bytes → Result KeyError Bytes
sized raw = if not (length raw == master_key_size) then err (wrong_size (length raw)) else ok raw

unfoldable pub read_content : Option Bytes → Result KeyError Bytes
unfolding sized
read_content none = err read_failed
read_content (some raw) = sized raw

-- The permission bits are nine.
unfoldable pub read_gated : ℕ → ℕ → Option Bytes → Result KeyError Bytes
unfolding bit_and read_content
read_gated deny_mask perm content =
    if not (bit_and 9 perm deny_mask == 0)
    then err (loose_permissions perm)
    else read_content content

unfoldable pub read_stat : ℕ → Option ℕ → Option Bytes → Result KeyError Bytes
unfolding read_gated
read_stat deny_mask none content = err stat_failed
read_stat deny_mask (some perm) content = read_gated deny_mask perm content

unfoldable pub read_key : Files → Bytes → ℕ → Result KeyError Bytes
unfolding read_stat
read_key files path deny_mask = read_stat deny_mask (files.permissions path) (files.content path)

unfoldable pub read_shared : Files → Bytes → Result KeyError Bytes
unfolding read_key
read_shared files path = read_key files path others

module _ (lib : Crypto) where
  pub record Key : Type 0 where
    pub aead : lib.Aead
    pub fingerprint : Bytes

  unfoldable pub new_aead : Bytes → Result KeyError lib.Aead
  new_aead key =
      if not (length key == master_key_size)
      then err (wrong_size (length key))
      else elim (lib.new_cipher key) [
        | none ↦ err cipher_failed
        | some block ↦ elim (lib.new_gcm block) [ none ↦ err gcm_failed | some aead ↦ ok aead ]
      ]

  unfoldable pub fingerprint : Bytes → Bytes
  fingerprint key = lib.hex (take 8 (lib.sha256 key))

  unfoldable pub key_of : Bytes → Result KeyError lib.Aead → Result KeyError Key
  unfolding fingerprint
  key_of key (err e) = err e
  key_of key (ok aead) = ok (record { aead = aead; fingerprint = fingerprint key })

  -- `New`
  unfoldable pub new_key : Bytes → Result KeyError Key
  unfolding new_aead key_of
  new_key key = key_of key (new_aead key)

  unfoldable pub load_raw : Result KeyError Bytes → Result KeyError Key
  unfolding new_key
  load_raw (err e) = err e
  load_raw (ok raw) = new_key raw

  unfoldable pub load : Files → Bytes → ℕ → Result KeyError Key
  unfolding read_key load_raw
  load files path deny_mask = load_raw (read_key files path deny_mask)

  -- `Load`
  unfoldable pub load_private : Files → Bytes → Result KeyError Key
  unfolding load
  load_private files path = load files path others_and_group

  unfoldable pub load_shared : Files → Bytes → Result KeyError Key
  unfolding load
  load_shared files path = load files path others

  -- `random` is what `rand.Read` fills the nonce with; `none` is each method's error.
  unfoldable pub encrypt_base64 : Key → (ℕ → Option Bytes) → Bytes → Option Bytes
  encrypt_base64 k random plaintext = elim (random (lib.nonce_size k.aead)) [
    | none ↦ none
    | some nonce ↦ some (lib.encode_base64 (nonce ++ lib.seal k.aead nonce plaintext))
  ]

  unfoldable pub decrypt_data : Key → Bytes → Option Bytes
  decrypt_data k sealed =
      let n = lib.nonce_size k.aead in
      if ltb (length sealed) n then none else lib.open_sealed k.aead (take n sealed) (drop n sealed)

  unfoldable pub decrypt_base64 : Key → Bytes → Option Bytes
  unfolding decrypt_data
  decrypt_base64 k ciphertext = elim (lib.decode_base64 ciphertext) [
    | none ↦ none
    | some sealed ↦ decrypt_data k sealed
  ]
