-- ===== src/Masterkey/Sealing.antt =====
-- pkg/masterkey/masterkey.go: `EncryptBase64` against `DecryptBase64`.
use bluebottle.Prelude.{
  ℕ, ◌≡◌, refl, sym, ◌∙◌, false, Option, some, ◌++◌, arith, Bytes, ltb, length, length-append,
  take-append, drop-append,
}
use bluebottle.Masterkey.{Crypto, Key, encrypt_base64, decrypt_base64, decrypt_data}

module _ (lib : Crypto) where
  -- The documented behaviour of encoding/base64 and of an AEAD: decoding and opening undo encoding and
  -- sealing under the same nonce.
  pub record Laws : Type 0 where
    pub decode_encode : (s : Bytes) → lib.decode_base64 (lib.encode_base64 s) ≡ some s
    pub open_seal :
        (a : lib.Aead) (nonce plaintext : Bytes)
        → length nonce ≡ lib.nonce_size a
        → lib.open_sealed a nonce (lib.seal a nonce plaintext) ≡ some plaintext

  decrypt_data-append :
      (k : Key lib) (nonce sealed : Bytes)
      → length nonce ≡ lib.nonce_size k.aead
      → decrypt_data lib k (nonce ++ sealed) ≡ lib.open_sealed k.aead nonce sealed
  unfolding decrypt_data
  decrypt_data-append k nonce sealed h =
      rw (sym h, long_enough, take-append nonce sealed, drop-append nonce sealed) refl
    where
      long_enough : ltb (length (nonce ++ sealed)) (length nonce) ≡ false
      long_enough = ground (arith, length-append nonce sealed)

  -- Whatever nonce of the right length the source of randomness gives, encrypting succeeds and
  -- decrypting the result gives the plaintext back.
  pub decrypt_base64-encrypt_base64 :
      Laws
      → (k : Key lib) (random : ℕ → Option Bytes) (nonce plaintext : Bytes)
      → random (lib.nonce_size k.aead) ≡ some nonce
      → length nonce ≡ lib.nonce_size k.aead
      → (c : Bytes) × (encrypt_base64 lib k random plaintext ≡ some c)
        × (decrypt_base64 lib k c ≡ some plaintext)
  unfolding encrypt_base64 decrypt_base64
  decrypt_base64-encrypt_base64 laws k random nonce plaintext r l =
      let sealed = lib.seal k.aead nonce plaintext in
      (
        lib.encode_base64 (nonce ++ sealed),
        rw (r, encrypt_base64) refl,
        rw (laws.decode_encode (nonce ++ sealed), decrypt_base64)
            (decrypt_data-append k nonce sealed l ∙ laws.open_seal k.aead nonce plaintext l),
      )
