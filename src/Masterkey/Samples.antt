-- ===== src/Masterkey/Samples.antt =====
-- A key file with two modes, and a cipher that leaves the text as it is.
use bluebottle.Prelude.{ℕ, ◌≡◌, refl, ◌↔◌, Option, some, [], ◌∷◌, Bytes, codes, err, ok}
use bluebottle.Masterkey.{
  Crypto, Files, KeyError, others, others_and_group, bit_and, sized, read_content, read_gated,
  read_stat, read_key, Key, new_aead, fingerprint, key_of, new_key, load_raw, load, load_private,
  encrypt_base64, decrypt_base64,
}
use bluebottle.Masterkey.Loading.{IsKeyFile, read_key_iff}
use bluebottle.Masterkey.Sealing.{Laws, decrypt_base64-encrypt_base64}

abbrev plain : Crypto
plain = record {
  Block = Bytes;
  Aead = Bytes;
  new_cipher = some;
  new_gcm = some;
  nonce_size = λ a. 2;
  seal = λ a nonce s. s;
  open_sealed = λ a nonce s. some s;
  sha256 = λ s. s;
  hex = λ s. s;
  encode_base64 = λ s. s;
  decode_base64 = some;
}

plain-Laws : Laws plain
plain-Laws = record { decode_encode = λ s. refl; open_seal = λ a nonce s l. refl }

abbrev path : Bytes
path = codes "k"

abbrev raw : Bytes
raw = codes "0123456789abcdef0123456789abcdef"

-- Mode 0600.
abbrev private_file : Files
private_file = record { permissions = λ p. some 384; content = λ p. some raw }

-- Mode 0640.
abbrev group_file : Files
group_file = record { permissions = λ p. some 416; content = λ p. some raw }

abbrev key : Key plain
key = record { aead = raw; fingerprint = codes "01234567" }

refused : read_key group_file path others_and_group ≡ err (KeyError.loose_permissions 416)
unfolding read_key read_stat read_gated read_content sized bit_and
refused = refl

shared : read_key group_file path others ≡ ok raw
unfolding read_key read_stat read_gated read_content sized bit_and
shared = refl

loaded : load_private plain private_file path ≡ ok key
unfolding load_private load load_raw read_key read_stat read_gated read_content sized bit_and
    new_key new_aead key_of fingerprint
loaded = refl

read_key_iff_example :
    (read_key group_file path others ≡ ok raw) ↔ IsKeyFile group_file path others raw
read_key_iff_example = read_key_iff group_file path others raw

abbrev random : ℕ → Option Bytes
random n = some (7 ∷ 9 ∷ [])

decrypt_base64-encrypt_base64_example :
    (c : Bytes) × (encrypt_base64 plain key random (codes "secret") ≡ some c)
    × (decrypt_base64 plain key c ≡ some (codes "secret"))
decrypt_base64-encrypt_base64_example =
    decrypt_base64-encrypt_base64 plain plain-Laws key random (7 ∷ 9 ∷ []) (codes "secret") refl
      refl
