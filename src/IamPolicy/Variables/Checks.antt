-- ===== src/IamPolicy/Variables/Checks.antt =====
-- The check of write paths against the evaluator (pkg/iampolicy/variables.go): `UnresolvableVariable`
-- and `expandVariables` agree on which texts can be resolved.
use bluebottle.Prelude.{
  suc, ◌≡◌, ◌≢◌, refl, Bool, true, false, ◌&&◌, not, Option, none, some, [], ◌∷◌, ◌++◌, arith,
  Bytes, if◌then◌else◌, length, is_some, Option-cases, Bool-cases, inl, inr, ◌∙◌, ap,
}
use bluebottle.Strings.{cut_open}
use bluebottle.IamPolicy.Variables.{
  ConditionKeys, substitutable, literal_variables, variable_ok, unresolvable_variable, literal,
  unresolvable, write_escaped, reference, expand_variables, escapes_in_text, escapes_in_value,
}
use bluebottle.IamPolicy.Variables.Template.{
  text, ref, unclosed, Pieces, Template, plain, broken, more, pieces_of, append_some, render,
  finish, expand_loop-render, unsupported, first_fault, unresolvable_variable-first_fault,
}

abbrev text_chars : Bool → Bytes
text_chars escape_meta = if escape_meta then escapes_in_text else []

abbrev value_chars : Bool → Bytes
value_chars escape_meta = if escape_meta then escapes_in_value else []

-- With a `${` in the text, `expandVariables` renders its pieces.
pub expand_variables-render :
    (s : Bytes) (ps : Pieces) (keys : ConditionKeys) (escape_meta : Bool)
    → Template s ps
    → is_some (cut_open s) ≡ true
    → expand_variables s keys escape_meta
      ≡ finish [] (render keys (text_chars escape_meta) (value_chars escape_meta) ps)
unfolding expand_variables
expand_variables-render s ps keys escape_meta t e =
    rw e (expand_loop-render keys _ _ (suc (length s)) [] (omega arith) t)

pub expand_variables-literal :
    (s : Bytes) (keys : ConditionKeys) (escape_meta : Bool)
    → is_some (cut_open s) ≡ false
    → expand_variables s keys escape_meta ≡ (s, literal)
unfolding expand_variables
expand_variables-literal s keys escape_meta e = rw e

-- The request carries every key that a reference may name.
abbrev pub Supplies : ConditionKeys → Type 0
Supplies keys = (name : Bytes) → substitutable name ≡ true → (v : Bytes) × (keys name ≡ some v)

supported_reference :
    (keys : ConditionKeys) (name : Bytes)
    → Supplies keys
    → unsupported name ≡ false
    → (v : Bytes) × (reference keys name ≡ some v)
unfolding reference is_some
supported_reference keys name supplied h = elim (Option-cases (literal_variables name)) [
  | inr (v, e) ↦ (v, rw (e, reference))
  | inl e ↦ elim (Bool-cases (substitutable name)) [
    | inl s ↦ let (v, k) = supplied name s in (v, rw (e, reference, s) k)
    | inr s ↦ cc (supported_needs (literal_variables name) (substitutable name) e s h)
  ]
]
  where
    supported_needs :
        (o : Option Bytes) (b : Bool)
        → o ≡ none
        → b ≡ false
        → (not (is_some o) && not b) ≡ false
        → true ≡ false
    supported_needs none false e s k = k
    supported_needs none true e s k = s
    supported_needs (some v) b e s k = cc

render_supported :
    (keys : ConditionKeys) (tc vc : Bytes) (ps : Pieces)
    → Supplies keys
    → (first_fault ps).1 ≡ variable_ok
    → (r : Bytes) × (render keys tc vc ps ≡ some r)
render_supported keys tc vc [] supplied h = ([], refl)
render_supported keys tc vc (text t ∷ ps) supplied h =
    let (r, e) = render_supported keys tc vc ps supplied h in (write_escaped t tc ++ r, rw e)
render_supported keys tc vc (unclosed t ∷ ps) supplied h = cc
render_supported keys tc vc (ref name ∷ ps) supplied h = elim (Bool-cases (unsupported name)) [
  | inl u ↦ cc (rw u at h)
  | inr u ↦
      let (v, k) = supported_reference keys name supplied u in
      let (r, e) = render_supported keys tc vc ps supplied (rw u at h) in
      (write_escaped v vc ++ r, rw (k, render, e))
]

unsupported-reference :
    (keys : ConditionKeys) (name : Bytes) → unsupported name ≡ true → reference keys name ≡ none
unfolding reference is_some
unsupported-reference keys name h = ground arith

render_at_fault :
    (keys : ConditionKeys) (tc vc : Bytes) (ps : Pieces)
    → (first_fault ps).1 ≢ variable_ok
    → render keys tc vc ps ≡ none
render_at_fault keys tc vc [] h = absurd (h refl)
render_at_fault keys tc vc (text t ∷ ps) h = rw (render_at_fault keys tc vc ps h)
render_at_fault keys tc vc (unclosed t ∷ ps) h = refl
render_at_fault keys tc vc (ref name ∷ ps) h = elim (Bool-cases (unsupported name)) [
  | inl u ↦ rw (unsupported-reference keys name u, render)
  | inr u ↦ no_value (reference keys name) (render_at_fault keys tc vc ps (rw u at h))
]
  where
    no_value :
        (o : Option Bytes)
        → render keys tc vc ps ≡ none
        → ◌≡◌ {A = Option Bytes}
            (elim o [
              | none ↦ none
              | some v ↦ append_some (write_escaped v vc) (render keys tc vc ps)
            ])
            none
    no_value none e = refl
    no_value (some v) e = rw e

no_fault_at_plain :
    (s : Bytes) (ps : Pieces)
    → Template s ps
    → is_some (cut_open s) ≡ false
    → (first_fault ps).1 ≡ variable_ok
unfolding is_some
no_fault_at_plain s ps (plain e) h = refl
no_fault_at_plain s ps (broken e e') h = cc (rw e at h)
no_fault_at_plain s ps (more e e' t) h = cc (rw e at h)

-- A text that `UnresolvableVariable` accepts is expanded for every request that carries the keys a
-- reference may name.
pub expand_variables-accepted :
    (s : Bytes) (keys : ConditionKeys) (escape_meta : Bool)
    → (unresolvable_variable s).1 ≡ variable_ok
    → Supplies keys
    → (expand_variables s keys escape_meta).1 ≢ unresolvable
expand_variables-accepted s keys escape_meta ok supplied =
    elim (Bool-cases (is_some (cut_open s))) [
      | inr e ↦ rw (expand_variables-literal s keys escape_meta e) (λ h. cc)
      | inl e ↦
          let (ps, t) = pieces_of s in
          let (r, k) =
            render_supported keys (text_chars escape_meta) (value_chars escape_meta) ps supplied
              (rw (unresolvable_variable-first_fault t) at ok) in
          rw (expand_variables-render s ps keys escape_meta t e, k) (λ h. cc)
    ]

-- A text that `UnresolvableVariable` faults is unresolvable for every request.
pub expand_variables-rejected :
    (s : Bytes) (keys : ConditionKeys) (escape_meta : Bool)
    → (unresolvable_variable s).1 ≢ variable_ok
    → expand_variables s keys escape_meta ≡ ([], unresolvable)
expand_variables-rejected s keys escape_meta fault =
    let (ps, t) = pieces_of s in
    let f = rw (unresolvable_variable-first_fault t) at fault in
    elim (Bool-cases (is_some (cut_open s))) [
      | inr e ↦ absurd (f (no_fault_at_plain s ps t e))
      | inl e ↦
          expand_variables-render s ps keys escape_meta t e
          ∙ ap (finish []) (render_at_fault keys _ _ ps f)
    ]
