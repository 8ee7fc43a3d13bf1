-- ===== src/Otelsetup/Sanitize/Samples.antt =====
-- pkg/otelsetup/logsanitize.go: a record with a byte that is no text, in a map in a slice.
use bluebottle.Prelude.{
  ◌≡◌, ◌↔◌, refl, Bool, true, false, map, all, ltb, Bytes, codes, [], ◌∷◌, if◌then◌else◌,
}
use bluebottle.Otelsetup.Sanitize.{
  string, string_slice, slice, dict, scalar, nil, item, end, entry, Sdk, Record, on_emit,
}
use bluebottle.Otelsetup.Sanitize.Valid.{OnlyDrops, IsSdk}
use bluebottle.Otelsetup.Sanitize.Emitted.{is_valid_record, on_emit-is_valid_record}

-- Only ASCII is valid, and what is not becomes a question mark.
abbrev question : Bytes → Bytes
question s = map (λ c. if ltb c 128 then c else b'?') s

abbrev ascii_sdk : Sdk
ascii_sdk = record {
  valid_string = λ s. all (λ c. ltb c 128) s;
  to_valid = question;
  map_value = λ kvs. kvs;
  set_attributes = λ kvs. kvs;
}

question_valid : (s : Bytes) → all (λ c. ltb c 128) (question s) ≡ true
question_valid [] = refl
question_valid (c ∷ s) = rw (one (ltb c 128) refl, question_valid s) refl
  where
    one : (b : Bool) → ltb c 128 ≡ b → ltb (if b then c else b'?') 128 ≡ true
    one true e = e
    one false e = refl

keeps_all : OnlyDrops (λ kvs. kvs)
keeps_all p kvs h = h

ascii_sdk-IsSdk : IsSdk ascii_sdk
ascii_sdk-IsSdk = record {
  to_valid = question_valid;
  map_value = keeps_all;
  set_attributes = keeps_all;
}

abbrev closed : Record
closed = record {
  body = string (codes "closed");
  attributes =
      entry (codes "reason")
        (slice (
          item (dict (entry (codes "peer") (string (255 ∷ codes "x")) end))
            (item (scalar (7 ∷ [])) nil)))
        (entry (codes "tags") (string_slice (codes "a" ∷ codes "b" ∷ [])) end);
}

cleaned : on_emit ascii_sdk closed ≡ record {
  body = string (codes "closed");
  attributes =
      entry
        (codes "reason")
        (slice (
          item
            (dict (entry (codes "peer") (string (codes "?x")) end))
            (item (scalar (7 ∷ [])) nil)))
        (entry (codes "tags") (string_slice (codes "a" ∷ codes "b" ∷ [])) end);
}
unfolding on_emit
cleaned = refl

on_emit-is_valid_record_example :
    (is_valid_record ascii_sdk (on_emit ascii_sdk closed) ≡ true)
    × ((on_emit ascii_sdk closed ≡ closed) ↔ (is_valid_record ascii_sdk closed ≡ true))
on_emit-is_valid_record_example = on_emit-is_valid_record ascii_sdk ascii_sdk-IsSdk closed
