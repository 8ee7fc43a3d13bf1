-- ===== src/Sigv4/Authorization/Scopes.antt =====
-- pkg/sigv4/parse.go: the credential scopes that `parseCredential` accepts.
use bluebottle.Prelude.{
  ◌≡◌, refl, ap, subst, ◌∙◌, Bool, true, false, not, ◌↔◌, Option, none, some, List, [], ◌∷◌, Bytes,
  codes, eqb, eqb_iff, is_some, if◌then◌else◌, Option-cases, inl, inr, Result, err, ok,
}
use bluebottle.Prelude.Int.{ℤ}
use bluebottle.Strings.Spaces.{join}
use bluebottle.Strings.Splitting.{split_byte, AllLack, split_byte_iff}
use bluebottle.Sigv4.Requests.{
  Runtime, amz_date_format, amz_scope_terminator, AuthError, malformed_authorization,
  ScopedCredential,
}
use bluebottle.Sigv4.Authorization.{scope_parts, parse_credential}

abbrev pub scope_list : ScopedCredential → List Bytes
scope_list c = c.access_key_id ∷ c.date ∷ c.region ∷ c.service ∷ amz_scope_terminator ∷ []

-- The date is one, and that of the time.
abbrev pub IsDateOf : Runtime → ℤ → Bytes → Type 0
IsDateOf rt t date =
    (is_some (rt.platform.parse_time amz_date_format date) ≡ true)
    × (date ≡ rt.format_time amz_date_format t)

scope_parts_sound :
    (rt : Runtime) (t : ℤ) (parts : List Bytes) (c : ScopedCredential)
    → scope_parts rt t parts ≡ ok c
    → (parts ≡ scope_list c) × IsDateOf rt t c.date
unfolding scope_parts is_some
scope_parts_sound rt t [] c h = cc
scope_parts_sound rt t (a ∷ []) c h = cc
scope_parts_sound rt t (a ∷ b ∷ []) c h = cc
scope_parts_sound rt t (a ∷ b ∷ d ∷ []) c h = cc
scope_parts_sound rt t (a ∷ b ∷ d ∷ e ∷ []) c h = cc
scope_parts_sound rt t (a ∷ b ∷ d ∷ e ∷ f ∷ g ∷ more) c h = cc
scope_parts_sound rt t (a ∷ date ∷ region ∷ service ∷ terminator ∷ []) c h =
    given (rt.platform.parse_time amz_date_format date) refl
      (eqb date (rt.format_time amz_date_format t)) refl (eqb terminator amz_scope_terminator) refl
      h
  where
    given :
        (o : Option ℤ)
        → rt.platform.parse_time amz_date_format date ≡ o
        → (p : Bool) → eqb date (rt.format_time amz_date_format t) ≡ p
        → (q : Bool) → eqb terminator amz_scope_terminator ≡ q
        → elim o as (λ x. Result AuthError ScopedCredential) [
          | none ↦ err malformed_authorization
          | some day ↦
              if not p
              then err malformed_authorization
              else if not q
              then err malformed_authorization
              else ok
                  (record { access_key_id = a; date = date; region = region; service = service })
        ]
          ≡ ok c
        → (a ∷ date ∷ region ∷ service ∷ terminator ∷ [] ≡ scope_list c) × IsDateOf rt t c.date
    given none o p p' q q' k = cc
    given (some day) o false p' q q' k = cc
    given (some day) o true p' false q' k = cc
    given (some day) o true p' true q' k =
        let scope : ScopedCredential = record {
          access_key_id = a;
          date = date;
          region = region;
          service = service;
        } in
        let same : ◌≡◌ {A = ScopedCredential} scope c = cc in
        subst
          (λ (x : ScopedCredential).
            (a ∷ date ∷ region ∷ service ∷ terminator ∷ [] ≡ scope_list x) × IsDateOf rt t x.date)
          same
          (
            ap (λ x. a ∷ date ∷ region ∷ service ∷ x ∷ [])
                ((eqb_iff terminator amz_scope_terminator).0 q'),
            (ap is_some o, (eqb_iff date (rt.format_time amz_date_format t)).0 p'),
          )

scope_parts_complete :
    (rt : Runtime) (t : ℤ) (c : ScopedCredential)
    → IsDateOf rt t c.date
    → scope_parts rt t (scope_list c) ≡ ok c
unfolding scope_parts is_some
scope_parts_complete rt t c (d, e) =
    elim (Option-cases (rt.platform.parse_time amz_date_format c.date)) [
      | inl n ↦ cc
      | inr (day, o) ↦ rw (o, (eqb_iff c.date (rt.format_time amz_date_format t)).1 e) refl
    ]

-- A credential scope is accepted for a time exactly when it is the access key, the date, the region,
-- the service and `aws4_request`, with a slash between each two and none in them, and the date is a
-- date and that of the time.
pub parse_credential_iff :
    (rt : Runtime) (credential : Bytes) (t : ℤ) (c : ScopedCredential)
    → (parse_credential rt credential t ≡ ok c) ↔ (
        (credential ≡ join (codes "/") (scope_list c))
        × AllLack b'/' (scope_list c)
        × IsDateOf rt t c.date)
unfolding parse_credential
parse_credential_iff rt credential t c = (
  λ h.
      let (parts, date) = scope_parts_sound rt t (split_byte b'/' credential) c h in
      let (e, l) =
        (split_byte_iff b'/' credential c.access_key_id
            (c.date ∷ c.region ∷ c.service ∷ amz_scope_terminator ∷ [])).0
          parts in
      (e, l, date),
  λ (e, l, date).
      ap (scope_parts rt t) (
        (split_byte_iff b'/' credential c.access_key_id
            (c.date ∷ c.region ∷ c.service ∷ amz_scope_terminator ∷ [])).1
          (e, l))
      ∙ scope_parts_complete rt t c date,
)
