-- ===== src/IamPolicy/Variables/Template.antt =====
-- What a text with policy variables says (pkg/iampolicy/variables.go), apart from how the loops of
-- the source read it: its pieces, what they render to, and the first of them that is at fault.
use bluebottle.Prelude.{
  ℕ, zero, suc, ◌<◌, ◌≡◌, refl, Bool, ◌&&◌, not, Option, none, some, List, [], ◌∷◌, ◌++◌,
  append-nil, append_assoc, arith, Bytes, if◌then◌else◌, length, is_some, Option-cases, inl, inr,
  ◌∙◌,
}
use bluebottle.Strings.{cut_byte, cut_open, cut_byte_shorter, cut_open_shorter}
use bluebottle.IamPolicy.Variables.{
  ConditionKeys, substitutable, literal_variables, VariableFault, variable_ok, unknown_key,
  unterminated, fault_loop, unresolvable_variable, Expansion, resolved, unresolvable, write_escaped,
  reference, expand_loop,
}

-- Text to copy, a reference with its name, and a reference that no brace closes.
pub data Piece : Type 0 where
  text : Bytes → Piece
  ref : Bytes → Piece
  unclosed : Bytes → Piece

abbrev pub Pieces : Type 0
Pieces = List Piece

pub data Template : Bytes → Pieces → Type 0 where
  plain : {s : Bytes} → cut_open s ≡ none → Template s (text s ∷ [])
  broken :
      {s a b : Bytes}
      → cut_open s ≡ some (a, b)
      → cut_byte b'}' b ≡ none
      → Template s (text a ∷ unclosed b ∷ [])
  more :
      {s a b name rest : Bytes} {ps : Pieces}
      → cut_open s ≡ some (a, b)
      → cut_byte b'}' b ≡ some (name, rest)
      → Template rest ps
      → Template s (text a ∷ ref name ∷ ps)

-- What is behind the closing brace is shorter.
pub rest_shorter :
    (s : Bytes) {a b name : Bytes} (rest : Bytes)
    → cut_open s ≡ some (a, b)
    → cut_byte b'}' b ≡ some (name, rest)
    → length rest < length s
rest_shorter s {a} {b} {name} rest e e' =
    omega (
      arith,
      cut_open_shorter s {x = a} {y = b} e,
      cut_byte_shorter b'}' b {x = name} {y = rest} e',
    )

Template-below : (n : ℕ) (s : Bytes) → length s < n → (ps : Pieces) × Template s ps
Template-below zero s h = absurd (omega arith)
Template-below (suc n) s h = elim (Option-cases (cut_open s)) [
  | inl e ↦ (text s ∷ [], plain e)
  | inr ((a, b), e) ↦ elim (Option-cases (cut_byte b'}' b)) [
    | inl e' ↦ (text a ∷ unclosed b ∷ [], broken e e')
    | inr ((name, rest), e') ↦
        let (ps, t) = Template-below n rest (omega (arith, rest_shorter s rest e e')) in
        (text a ∷ ref name ∷ ps, more e e' t)
  ]
]

-- Every text has pieces.
pub pieces_of : (s : Bytes) → (ps : Pieces) × Template s ps
pieces_of s = Template-below (suc (length s)) s (omega arith)

abbrev pub append_some : Bytes → Option Bytes → Option Bytes
append_some s none = none
append_some s (some t) = some (s ++ t)

-- The rendered text, or `none` where a reference has no value.
abbrev pub render : ConditionKeys → Bytes → Bytes → Pieces → Option Bytes
render keys tc vc [] = some []
render keys tc vc (text t ∷ ps) = append_some (write_escaped t tc) (render keys tc vc ps)
render keys tc vc (unclosed t ∷ ps) = none
render keys tc vc (ref name ∷ ps) = elim (reference keys name) [
  | none ↦ none
  | some v ↦ append_some (write_escaped v vc) (render keys tc vc ps)
]

abbrev pub finish : Bytes → Option Bytes → Bytes × Expansion
finish out none = ([], unresolvable)
finish out (some s) = (out ++ s, resolved)

module _ (keys : ConditionKeys) (tc vc : Bytes) where
  loop_plain :
      (fuel : ℕ) (s out : Bytes)
      → cut_open s ≡ none
      → expand_loop (suc fuel) s keys tc vc out ≡ (out ++ write_escaped s tc, resolved)
  unfolding expand_loop
  loop_plain fuel [] out e = unfold write_escaped in rw append-nil
  loop_plain fuel (c ∷ s) out e = rw (e, expand_loop)

  loop_broken :
      (fuel : ℕ) (s out : Bytes) {a b : Bytes}
      → cut_open s ≡ some (a, b)
      → cut_byte b'}' b ≡ none
      → expand_loop (suc fuel) s keys tc vc out ≡ ([], unresolvable)
  unfolding expand_loop
  loop_broken fuel [] out e e' = unfold cut_open in cc
  loop_broken fuel (c ∷ s) out e e' = rw (e, expand_loop, e')

  loop_no_value :
      (fuel : ℕ) (s out : Bytes) {a b name rest : Bytes}
      → cut_open s ≡ some (a, b)
      → cut_byte b'}' b ≡ some (name, rest)
      → reference keys name ≡ none
      → expand_loop (suc fuel) s keys tc vc out ≡ ([], unresolvable)
  unfolding expand_loop
  loop_no_value fuel [] out e e' r = unfold cut_open in cc
  loop_no_value fuel (c ∷ s) out e e' r = rw (e, expand_loop, e', r)

  loop_value :
      (fuel : ℕ) (s out : Bytes) {a b name rest v : Bytes}
      → cut_open s ≡ some (a, b)
      → cut_byte b'}' b ≡ some (name, rest)
      → reference keys name ≡ some v
      → expand_loop (suc fuel) s keys tc vc out
        ≡ expand_loop fuel rest keys tc vc ((out ++ write_escaped a tc) ++ write_escaped v vc)
  unfolding expand_loop
  loop_value fuel [] out e e' r = unfold cut_open in cc
  loop_value fuel (c ∷ s) out e e' r = rw (e, expand_loop, e', r)

  finish-append :
      (out a v : Bytes) (r : Option Bytes)
      → finish ((out ++ a) ++ v) r ≡ finish out (append_some a (append_some v r))
  finish-append out a v none = refl
  finish-append out a v (some r) = simp append_assoc

  -- The loop renders the pieces, behind what the builder holds.
  pub expand_loop-render :
      (fuel : ℕ) (out : Bytes) {s : Bytes} {ps : Pieces}
      → length s < fuel
      → Template s ps
      → expand_loop fuel s keys tc vc out ≡ finish out (render keys tc vc ps)
  expand_loop-render zero out h t = absurd (omega arith)
  expand_loop-render (suc fuel) out h (plain {s} e) = loop_plain fuel s out e ∙ rw append-nil
  expand_loop-render (suc fuel) out h (broken {s} e e') = loop_broken fuel s out e e'
  expand_loop-render (suc fuel) out h (more {s} {a} {name} {rest} {ps} e e' t) =
      elim (Option-cases (reference keys name)) [
        | inl r ↦ loop_no_value fuel s out e e' r ∙ rw r
        | inr (v, r) ↦
            loop_value fuel s out e e' r
            ∙ expand_loop-render fuel _ (omega (arith, rest_shorter s rest e e')) t
            ∙ finish-append out (write_escaped a tc) (write_escaped v vc) (render keys tc vc ps)
            ∙ rw r
      ]

-- A name that no door resolves.
abbrev pub unsupported : Bytes → Bool
unsupported name = not (is_some (literal_variables name)) && not (substitutable name)

abbrev pub first_fault : Pieces → Bytes × VariableFault
first_fault [] = ([], variable_ok)
first_fault (text t ∷ ps) = first_fault ps
first_fault (unclosed t ∷ ps) = (t, unterminated)
first_fault (ref name ∷ ps) =
    let rest = first_fault ps in if unsupported name then (name, unknown_key) else rest

fault_loop-first_fault :
    (fuel : ℕ) {s : Bytes} {ps : Pieces}
    → length s < fuel
    → Template s ps
    → fault_loop fuel s ≡ first_fault ps
unfolding fault_loop
fault_loop-first_fault zero h t = absurd (omega arith)
fault_loop-first_fault (suc fuel) h (plain e) = rw (e, fault_loop)
fault_loop-first_fault (suc fuel) h (broken e e') = rw (e, fault_loop, e')
fault_loop-first_fault (suc fuel) h (more {s} {name} {rest} e e' t) =
    rw (e, fault_loop, e', fault_loop-first_fault fuel (omega (arith, rest_shorter s rest e e')) t)

-- `UnresolvableVariable` reports the first piece at fault.
pub unresolvable_variable-first_fault :
    {s : Bytes} {ps : Pieces} → Template s ps → unresolvable_variable s ≡ first_fault ps
unfolding unresolvable_variable
unresolvable_variable-first_fault {s} t = fault_loop-first_fault (suc (length s)) (omega arith) t
