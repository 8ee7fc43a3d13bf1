-- ===== src/Sigv4/Payload/Verified.antt =====
-- pkg/sigv4/payload.go: what a consumer of a verified body gets, against the signed digest.
use bluebottle.Prelude.{
  ℕ, ◌+◌, ◌≡◌, refl, sym, ap, subst, ◌∙◌, Bool, true, false, ◌&&◌, ◌||◌, not, Option, none, some,
  List, [], ◌∷◌, ◌++◌, append-nil, arith, Bytes, eqb, eqb_iff, length, if◌then◌else◌,
}
use bluebottle.Prelude.Int.{ℤ, pos, negsuc, ◌-ℤ◌, ◌≤ℤ◌, ltb_ℤ}
use bluebottle.Sigv4.Payload.{
  ReadError, eof, unexpected_eof, sha256_mismatch, other, VerifiedBody, Reading, mismatched,
  as_verified, fresh, received, settle, read, consume,
}

-- The number of bytes that the underlying body gives.
abbrev pub total : List (Bytes × Option ReadError) → ℕ
total [] = 0
total ((bytes, error) ∷ chunks) = length bytes + total chunks

-- Bytes that are received are owed no more.
owed-minus : (n rest : ℕ) (r : ℤ) → pos (n + rest) ≤ℤ r → pos rest ≤ℤ r -ℤ pos n
unfolding ◌-ℤ◌
owed-minus n rest (pos m) h = ground arith
owed-minus n rest (negsuc m) h = ground arith

none_owed : (n rest : ℕ) (r : ℤ) → pos (n + rest) ≤ℤ r → ltb_ℤ (pos 0) r ≡ false → n ≡ 0
none_owed n rest (pos m) h k = ground arith
none_owed n rest (negsuc m) h k = ground arith

still_none_owed : (n : ℕ) (r : ℤ) → ltb_ℤ (pos 0) r ≡ false → ltb_ℤ (pos 0) (r -ℤ pos n) ≡ false
unfolding ◌-ℤ◌
still_none_owed n (pos m) k = ground arith
still_none_owed n (negsuc m) k = ground arith

length-zero : (s : Bytes) → length s ≡ 0 → s ≡ []
length-zero [] h = refl
length-zero (c ∷ s) h = ground arith

module _ (sha256_hex : Bytes → Bytes) where
  -- The body so far has passed on what it hashed; `rest` bytes at most are to come.
  abbrev IsSound : VerifiedBody → ℕ → Bytes → Type 0
  IsSound b rest got =
      (b.failed ≡ none)
      × (b.written ≡ got)
      × (b.sized ≡ true → pos rest ≤ℤ b.remaining)
      × (b.verified ≡ true
          → (b.sized ≡ true)
            × (ltb_ℤ (pos 0) b.remaining ≡ false)
            × (eqb (sha256_hex b.written) b.digest ≡ true))

  -- What a read may return: nothing is lost, and the end comes with the digest.
  IsOutcome : Bytes → ℕ → Bytes → Reading → Type 0
  IsOutcome digest rest got r = elim r.error [
    | none ↦ IsSound r.body rest (got ++ r.bytes) × (r.body.digest ≡ digest)
    | some eof ↦ eqb (sha256_hex (got ++ r.bytes)) digest ≡ true
    | some _ ↦ Unit
  ]

  if_of :
      (P : Reading → Type 0) (c : Bool) {x y : Reading}
      → (c ≡ true → P x)
      → (c ≡ false → P y)
      → P (if c then x else y)
  if_of P true h k = h refl
  if_of P false h k = k refl

  -- Whatever the tests, when each of the three readings will do.
  any_branch :
      (P : Reading → Type 0) (a c d : Bool) (x y z : Reading)
      → P x
      → P y
      → P z
      → P (if a then x else if c then (if d then x else y) else z)
  any_branch P a c d x y z p q r =
      if_of P a (λ t. p) (λ t. if_of P c (λ u. if_of P d (λ k. p) (λ k. q)) (λ u. r))

  -- The cases of `settle`, for any values of its tests.
  settle-IsOutcome :
      (b : VerifiedBody) (rest : ℕ) (got bytes : Bytes) (error : Option ReadError)
      → IsSound b rest (got ++ bytes)
      → IsOutcome b.digest rest got (settle sha256_hex b bytes error)
  unfolding settle IsOutcome
  settle-IsOutcome b rest got bytes none (f, w, l, v) =
      let P = IsOutcome b.digest rest got in
      if_of P (b.sized && ltb_ℤ (pos 0) b.remaining && false) (λ h. tt)
        (λ h.
          if_of P (not b.verified && ((b.sized && not (ltb_ℤ (pos 0) b.remaining)) || false))
            (λ t.
              if_of P (not (eqb (sha256_hex b.written) b.digest)) (λ k. tt)
                (λ k. (
                  (f, w, l, λ u. first b.verified b.sized (ltb_ℤ (pos 0) b.remaining) _ t k),
                  refl,
                )))
            (λ n. ((f, w, l, v), refl)))
    where
      first :
          (v s o m : Bool)
          → (not v && ((s && not o) || false)) ≡ true
          → not m ≡ false
          → (s ≡ true) × (o ≡ false) × (m ≡ true)
      first v s o m t k = ground arith
  settle-IsOutcome b rest got bytes (some eof) (f, w, l, v) =
      let P = IsOutcome b.digest rest got in
      let same = λ (k : eqb (sha256_hex b.written) b.digest ≡ true).
        subst (λ t. eqb (sha256_hex t) b.digest ≡ true) w k in
      if_of P (b.sized && ltb_ℤ (pos 0) b.remaining && false) (λ h. tt)
        (λ h.
          if_of P (not b.verified && ((b.sized && not (ltb_ℤ (pos 0) b.remaining)) || true))
            (λ t.
              if_of P (not (eqb (sha256_hex b.written) b.digest)) (λ k. tt) (λ k. same (holds _ k)))
            (λ n. same (v (earlier b.verified _ n)).2))
    where
      holds : (m : Bool) → not m ≡ false → m ≡ true
      holds m k = ground arith

      earlier : (v a : Bool) → (not v && (a || true)) ≡ false → v ≡ true
      earlier v a n = ground arith
  settle-IsOutcome b rest got bytes (some unexpected_eof) h =
      let owed = ltb_ℤ (pos 0) b.remaining in
      any_branch (IsOutcome b.digest rest got) (b.sized && owed && true)
        (not b.verified && ((b.sized && not owed) || false))
        (not (eqb (sha256_hex b.written) b.digest)) (mismatched b)
        (record { body = as_verified b; bytes = bytes; error = some unexpected_eof })
        (record { body = b; bytes = bytes; error = some unexpected_eof }) tt tt tt
  settle-IsOutcome b rest got bytes (some sha256_mismatch) h =
      let owed = ltb_ℤ (pos 0) b.remaining in
      any_branch (IsOutcome b.digest rest got) (b.sized && owed && true)
        (not b.verified && ((b.sized && not owed) || false))
        (not (eqb (sha256_hex b.written) b.digest)) (mismatched b)
        (record { body = as_verified b; bytes = bytes; error = some sha256_mismatch })
        (record { body = b; bytes = bytes; error = some sha256_mismatch }) tt tt tt
  settle-IsOutcome b rest got bytes (some (other n)) h =
      let owed = ltb_ℤ (pos 0) b.remaining in
      any_branch (IsOutcome b.digest rest got) (b.sized && owed && true)
        (not b.verified && ((b.sized && not owed) || false))
        (not (eqb (sha256_hex b.written) b.digest)) (mismatched b)
        (record { body = as_verified b; bytes = bytes; error = some (other n) })
        (record { body = b; bytes = bytes; error = some (other n) }) tt tt tt

  read-IsOutcome :
      (b : VerifiedBody) (rest : ℕ) (got bytes : Bytes) (error : Option ReadError)
      → IsSound b (length bytes + rest) got
      → IsOutcome b.digest rest got (read sha256_hex b (bytes, error))
  unfolding read
  read-IsOutcome b rest got bytes error (f, w, l, v) =
      rw (f, read)
        (settle-IsOutcome (received b bytes) rest got bytes error (
          f,
          ap (λ t. t ++ bytes) w,
          λ s. owed-minus (length bytes) rest b.remaining (l s),
          λ u.
              let (s, o, m) = v u in
              let empty = length-zero bytes (none_owed (length bytes) rest b.remaining (l s) o) in
              let same = ap (λ t. b.written ++ t) empty ∙ append-nil b.written in
              (
                s,
                still_none_owed (length bytes) b.remaining o,
                subst (λ t. eqb (sha256_hex t) b.digest ≡ true) (sym same) m,
              ),
        ))

  consume_sound :
      (b : VerifiedBody) (chunks : List (Bytes × Option ReadError)) (got all : Bytes)
      → IsSound b (total chunks) got
      → consume sha256_hex b chunks got ≡ some (all, eof)
      → eqb (sha256_hex all) b.digest ≡ true
  unfolding consume IsOutcome
  consume_sound b [] got all h e = cc
  consume_sound b ((bytes, error) ∷ chunks) got all h e =
      let r = read sha256_hex b (bytes, error) in
      given r.body r.bytes r.error (read-IsOutcome b (total chunks) got bytes error h)
        (λ k. consume_sound r.body chunks (got ++ r.bytes) all k) e
    where
      given :
          (b' : VerifiedBody) (s : Bytes) (x : Option ReadError)
          → IsOutcome b.digest (total chunks) got (record { body = b'; bytes = s; error = x })
          → (IsSound b' (total chunks) (got ++ s)
              → consume sha256_hex b' chunks (got ++ s) ≡ some (all, eof)
              → eqb (sha256_hex all) b'.digest ≡ true)
          → elim x as (λ y. Option (Bytes × ReadError)) [
            | none ↦ consume sha256_hex b' chunks (got ++ s)
            | some y ↦ some (got ++ s, y)
          ]
            ≡ some (all, eof)
          → eqb (sha256_hex all) b.digest ≡ true
      given b' s none (k, d) later q = subst (λ t. eqb (sha256_hex all) t ≡ true) d (later k q)
      given b' s (some eof) o later q =
          let same : got ++ s ≡ all = cc in subst (λ t. eqb (sha256_hex t) b.digest ≡ true) same o
      given b' s (some unexpected_eof) o later q = cc
      given b' s (some sha256_mismatch) o later q = cc
      given b' s (some (other n)) o later q = cc

  -- A consumer that reads a body until it gets an error, and gets the end of the body, has got bytes
  -- that hash to the signed digest, however the body was cut into reads, provided that a body of
  -- declared length gives no more bytes than declared.
  pub consume-digest :
      (digest : Bytes) (remaining : ℤ) (sized : Bool) (chunks : List (Bytes × Option ReadError))
      (all : Bytes)
      → (sized ≡ true → pos (total chunks) ≤ℤ remaining)
      → consume sha256_hex (fresh digest remaining sized) chunks [] ≡ some (all, eof)
      → sha256_hex all ≡ digest
  consume-digest digest remaining sized chunks all h e =
      (eqb_iff (sha256_hex all) digest).0
        (consume_sound (fresh digest remaining sized) chunks [] all (refl, refl, h, λ u. cc) e)
