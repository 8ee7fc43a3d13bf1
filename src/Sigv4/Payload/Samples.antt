-- ===== src/Sigv4/Payload/Samples.antt =====
-- A body of four bytes in two reads, under a hash that is the text itself.
use bluebottle.Prelude.{◌≡◌, refl, arith, true, Option, none, some, List, [], ◌∷◌, Bytes, codes}
use bluebottle.Prelude.Int.{pos, ◌-ℤ◌}
use bluebottle.Sigv4.Payload.{ReadError, eof, sha256_mismatch, settle, read, consume, fresh}
use bluebottle.Sigv4.Payload.Verified.{consume-digest}

abbrev plain_hash : Bytes → Bytes
plain_hash s = s

abbrev body : Bytes
body = codes "body"

abbrev reads : List (Bytes × Option ReadError)
reads = (codes "bo", none) ∷ (codes "dy", none) ∷ ([], some eof) ∷ []

abbrev rewritten : List (Bytes × Option ReadError)
rewritten = (codes "bo", none) ∷ (codes "dx", none) ∷ ([], some eof) ∷ []

consumed : consume plain_hash (fresh body (pos 4) true) reads [] ≡ some (body, eof)
unfolding consume read settle ◌-ℤ◌
consumed = refl

withheld :
    consume plain_hash (fresh body (pos 4) true) rewritten [] ≡ some (codes "bo", sha256_mismatch)
unfolding consume read settle ◌-ℤ◌
withheld = refl

consume-digest_example : plain_hash body ≡ body
consume-digest_example =
    consume-digest plain_hash body (pos 4) true reads body (λ s. omega arith) consumed
