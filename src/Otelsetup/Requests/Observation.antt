-- ===== src/Otelsetup/Requests/Observation.antt =====
-- pkg/otelsetup/http.go: what the metric of a request says of its handler.
use bluebottle.Prelude.{
  ℕ, ◌+◌, ◌%◌, ◌^◌, ◌<◌, ◌≡◌, ◌↔◌, refl, ap, ◌∙◌, Bool, true, false, not, Option, none, some,
  is_some, List, [], ◌∷◌, ◌++◌, Bytes, codes, eqb, any, is_empty, arith, if◌then◌else◌, Bool-cases,
  inl, inr,
}
use bluebottle.Prelude.Int.{ℤ, pos, ltb_ℤ}
use bluebottle.Strings.Decimal.{format_int}
use bluebottle.Safecast.{int64}
use bluebottle.Otelsetup.Requests.{
  outcome_for_status, Act, writes_header, writes, names_action, names_error, serve, HttpRequest,
  path_name, observe,
}

-- The last status that is written, all bytes, and the last action and error code that are not empty.
abbrev pub last_status : ℤ → List Act → ℤ
last_status status [] = status
last_status status (writes_header code ∷ acts) = last_status code acts
last_status status (writes n ∷ acts) = last_status status acts
last_status status (names_action a ∷ acts) = last_status status acts
last_status status (names_error c ∷ acts) = last_status status acts

abbrev pub all_bytes : List Act → ℕ
all_bytes [] = 0
all_bytes (writes_header code ∷ acts) = all_bytes acts
all_bytes (writes n ∷ acts) = n + all_bytes acts
all_bytes (names_action a ∷ acts) = all_bytes acts
all_bytes (names_error c ∷ acts) = all_bytes acts

abbrev pub last_action : Bytes → List Act → Bytes
last_action name [] = name
last_action name (writes_header code ∷ acts) = last_action name acts
last_action name (writes n ∷ acts) = last_action name acts
last_action name (names_action a ∷ acts) = last_action (if not (is_empty a) then a else name) acts
last_action name (names_error c ∷ acts) = last_action name acts

abbrev pub last_error : Bytes → List Act → Bytes
last_error code [] = code
last_error code (writes_header c ∷ acts) = last_error code acts
last_error code (writes n ∷ acts) = last_error code acts
last_error code (names_action a ∷ acts) = last_error code acts
last_error code (names_error c ∷ acts) = last_error (if not (is_empty c) then c else code) acts

-- A handler's effects are these four, if its bytes fit into 63 bits.
serve-last :
    (acts : List Act) (status : ℤ) (written : ℕ) (name code : Bytes)
    → written + all_bytes acts < 2 ^ 63
    → serve acts
        (record { status = status; written = written }, record { name = name; error_code = code })
      ≡ (
        record { status = last_status status acts; written = written + all_bytes acts },
        record { name = last_action name acts; error_code = last_error code acts },
      )
serve-last [] status written name code h =
    let same : written ≡ written + 0 = omega arith in
    ap (λ n. (record { status = status; written = n }, record { name = name; error_code = code }))
      same
serve-last (writes_header c ∷ acts) status written name code h =
    serve-last acts c written name code h
serve-last (writes n ∷ acts) status written name code h =
    ap
      (λ w.
        serve acts
          (record { status = status; written = w }, record { name = name; error_code = code }))
      small
    ∙ serve-last acts status (written + n) name code (omega (arith, h))
    ∙ ap
        (λ w. (
          record { status = last_status status acts; written = w },
          record { name = last_action name acts; error_code = last_error code acts },
        ))
        assoc
  where
    small : (written + n) % 2 ^ 64 ≡ written + n
    small = omega (arith, h)

    assoc : written + n + all_bytes acts ≡ written + (n + all_bytes acts)
    assoc = omega arith
serve-last (names_action a ∷ acts) status written name code h = elim (Bool-cases (is_empty a)) [
  | inl e ↦ rw (e) (serve-last acts status written name code h)
  | inr e ↦ rw (e) (serve-last acts status written a code h)
]
serve-last (names_error c ∷ acts) status written name code h = elim (Bool-cases (is_empty c)) [
  | inl e ↦ rw (e) (serve-last acts status written name code h)
  | inr e ↦ rw (e) (serve-last acts status written name c h)
]

outcome_for_status-error :
    (status : ℤ)
    → (outcome_for_status status ≡ codes "error") ↔ (not (ltb_ℤ status (pos 500)) ≡ true)
unfolding outcome_for_status
outcome_for_status-error status =
    cases (not (ltb_ℤ status (pos 500))) (not (ltb_ℤ status (pos 400)))
  where
    cases :
        (a b : Bool)
        → ((if a then codes "error" else if b then codes "client_error" else codes "success")
            ≡ codes "error")
          ↔ (a ≡ true)
    cases true b = (λ e. refl, λ e. refl)
    cases false true = (λ e. cc, λ e. cc)
    cases false false = (λ e. cc, λ e. cc)

int64-small : (n : ℕ) → n < 2 ^ 63 → int64 (0 + n) ≡ pos n
unfolding int64
int64-small n k = ground arith

-- What a span is marked with, by the status.
abbrev marked : ℤ → Option Bytes
marked status =
    if not (ltb_ℤ status (pos 500)) then some (codes "HTTP " ++ format_int status) else none

span_error-outcome :
    (status : ℤ) → (outcome_for_status status ≡ codes "error") ↔ (is_some (marked status) ≡ true)
span_error-outcome status =
    let (to, from) = outcome_for_status-error status in
    (
      λ e. if_some (not (ltb_ℤ status (pos 500))) (to e),
      λ e. from (some_if (not (ltb_ℤ status (pos 500))) e),
    )
  where
    if_some :
        (b : Bool)
        → b ≡ true
        → is_some (if b then some (codes "HTTP " ++ format_int status) else none) ≡ true
    if_some true e = unfold is_some in refl
    if_some false e = cc

    some_if :
        (b : Bool)
        → is_some (if b then some (codes "HTTP " ++ format_int status) else none) ≡ true
        → b ≡ true
    some_if true e = refl
    some_if false e = unfold is_some in cc

-- The name that a request has before its handler names it.
abbrev pub first_name : List Bytes → HttpRequest → Bytes
first_name untraced r = if any (eqb r.path) untraced then path_name r else r.method

-- The metric of a request has the status that its handler wrote last, 200 where it wrote none, all the
-- bytes that it wrote, and the last action and error code that it named, and its outcome is `error`
-- exactly if the span is marked as an error, provided that the bytes are fewer than 2 ^ 63.
pub observe-last :
    (untraced : List Bytes) (r : HttpRequest) (acts : List Act) (elapsed : ℤ)
    → all_bytes acts < 2 ^ 63
    → ((observe untraced r acts elapsed).metric.status_code ≡ last_status (pos 200) acts)
      × ((observe untraced r acts elapsed).metric.resp_bytes ≡ pos (all_bytes acts))
      × ((observe untraced r acts elapsed).metric.action ≡ last_action (first_name untraced r) acts)
      × ((observe untraced r acts elapsed).metric.error_code ≡ last_error [] acts)
      × (((observe untraced r acts elapsed).metric.outcome ≡ codes "error")
          ↔ (is_some (observe untraced r acts elapsed).span_error ≡ true))
unfolding observe
observe-last untraced r acts elapsed h =
    let s = serve-last acts (pos 200) 0 (first_name untraced r) [] (omega (arith, h)) in
    (
      ap (λ x. x.0.status) s,
      ap (λ x. int64 x.0.written) s ∙ int64-small (all_bytes acts) h,
      ap (λ x. x.1.name) s,
      ap (λ x. x.1.error_code) s,
      span_error-outcome
          (serve acts (
            record { status = pos 200; written = 0 },
            record { name = first_name untraced r; error_code = [] },
          )).0.status,
    )
