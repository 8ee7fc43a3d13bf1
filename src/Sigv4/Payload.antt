-- ===== src/Sigv4/Payload.antt =====
-- pkg/sigv4/payload.go: the reader that hashes a request body as it is consumed. The hash is that of
-- Go's standard library and a parameter, from the bytes written to it to the digest in hex.
use bluebottle.Prelude.{
  ℕ, Bool, true, false, ◌&&◌, ◌||◌, not, Option, none, some, List, [], ◌∷◌, ◌++◌, Bytes, eqb,
  length, ltb, if◌then◌else◌,
}
use bluebottle.Prelude.Int.{ℤ, pos, ◌-ℤ◌, ltb_ℤ}
pub mod Verified
mod Samples

pub data ReadError : Type 0 where
  eof : ReadError
  unexpected_eof : ReadError
  sha256_mismatch : ReadError
  other : ℕ → ReadError

abbrev pub is_eof : Option ReadError → Bool
is_eof (some eof) = true
is_eof _ = false

abbrev pub is_other : Option ReadError → Bool
is_other none = false
is_other (some eof) = false
is_other (some e) = true

-- `written` is what the hash was given.
pub record VerifiedBody : Type 0 where
  pub written : Bytes
  pub digest : Bytes
  pub remaining : ℤ
  pub sized : Bool
  pub verified : Bool
  pub failed : Option ReadError

-- The reader that `bindPayload` gives a body that it does not buffer.
abbrev pub fresh : Bytes → ℤ → Bool → VerifiedBody
fresh digest remaining sized = record {
  written = [];
  digest = digest;
  remaining = remaining;
  sized = sized;
  verified = false;
  failed = none;
}

-- What a read returns, and the body it leaves.
pub record Reading : Type 0 where
  pub body : VerifiedBody
  pub bytes : Bytes
  pub error : Option ReadError

abbrev pub mismatched : VerifiedBody → Reading
mismatched b = record {
  body = record {
    written = b.written;
    digest = b.digest;
    remaining = b.remaining;
    sized = b.sized;
    verified = b.verified;
    failed = some sha256_mismatch;
  };
  bytes = [];
  error = some sha256_mismatch;
}

abbrev pub as_verified : VerifiedBody → VerifiedBody
as_verified b = record {
  written = b.written;
  digest = b.digest;
  remaining = b.remaining;
  sized = b.sized;
  verified = true;
  failed = b.failed;
}

abbrev pub received : VerifiedBody → Bytes → VerifiedBody
received b bytes = record {
  written = b.written ++ bytes;
  digest = b.digest;
  remaining = b.remaining -ℤ pos (length bytes);
  sized = b.sized;
  verified = b.verified;
  failed = b.failed;
}

-- What follows the read of the underlying body, which gave these bytes and this error. Receiving no
-- bytes changes nothing, which the source tests first.
unfoldable pub settle : (Bytes → Bytes) → VerifiedBody → Bytes → Option ReadError → Reading
settle sha256_hex b bytes error =
    let owed = ltb_ℤ (pos 0) b.remaining in
    let unchanged : Reading = record { body = b; bytes = bytes; error = error } in
    if b.sized && owed && is_other error
    then mismatched b
    else if not b.verified && ((b.sized && not owed) || is_eof error)
    then (if not (eqb (sha256_hex b.written) b.digest)
        then mismatched b
        else record { body = as_verified b; bytes = bytes; error = error })
    else unchanged

-- `Read`, with what the underlying body would give.
unfoldable pub read : (Bytes → Bytes) → VerifiedBody → Bytes × Option ReadError → Reading
unfolding settle
read sha256_hex b (bytes, error) = elim b.failed [
  | some e ↦ record { body = b; bytes = []; error = some e }
  | none ↦ settle sha256_hex (received b bytes) bytes error
]

-- A consumer that reads until it gets an error, and what it has got by then; `none` while there is
-- none.
unfoldable pub consume :
    (Bytes → Bytes)
    → VerifiedBody
    → List (Bytes × Option ReadError)
    → Bytes
    → Option (Bytes × ReadError)
unfolding read
consume sha256_hex b [] got = none
consume sha256_hex b (chunk ∷ chunks) got =
    let r = read sha256_hex b chunk in
    let rest = consume sha256_hex r.body chunks (got ++ r.bytes) in
    elim r.error [ none ↦ rest | some e ↦ some (got ++ r.bytes, e) ]
