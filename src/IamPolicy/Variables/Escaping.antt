-- ===== src/IamPolicy/Variables/Escaping.antt =====
-- `writeEscaped` of pkg/iampolicy/variables.go: read back as a pattern with escapes, escaped text keeps
-- its elements, and an escaped value has literal elements only.
use bluebottle.Prelude.{
  ℕ, ◌≡◌, refl, true, false, Option, none, some, [], ◌∷◌, ◌++◌, arith, Bytes, ◌==◌, map, ap, ap₂,
  ◌∙◌, Option-cases, inl, inr, Bool-cases,
}
use bluebottle.Strings.{has_byte, contains_any}
use bluebottle.IamPolicy.Glob.Element.{Elements, lit, element, elements}
use bluebottle.IamPolicy.Glob.Wildcard.{elements-plain}
use bluebottle.IamPolicy.Variables.{
  ConditionKeys, escapes_in_text, escapes_in_value, escape_bytes, write_escaped, reference,
}
use bluebottle.IamPolicy.Variables.Template.{text, ref, unclosed, Pieces, render, append_some}

abbrev pub append_elements : Elements → Option Elements → Option Elements
append_elements es none = none
append_elements es (some fs) = some (es ++ fs)

escape_bytes-none : (s chars : Bytes) → contains_any s chars ≡ false → escape_bytes s chars ≡ s
unfolding escape_bytes
escape_bytes-none [] chars h = refl
escape_bytes-none (c ∷ s) chars h = ground (arith, escape_bytes-none s chars)

pub write_escaped-escape_bytes : (s chars : Bytes) → write_escaped s chars ≡ escape_bytes s chars
unfolding write_escaped
write_escaped-escape_bytes s chars = ground (arith, escape_bytes-none s chars)

elements-escape : (d : ℕ) (p : Bytes) → elements true (b'\\' ∷ d ∷ p) ≡ lit d ∷ elements true p
unfolding elements
elements-escape d p = refl

elements-unescaped :
    (c : ℕ) (p : Bytes) → (c == b'\\') ≡ false → elements true (c ∷ p) ≡ element c ∷ elements true p
unfolding elements
elements-unescaped c [] h = refl
elements-unescaped c (d ∷ p) h = rw h

escape_bytes-hit :
    (c : ℕ) (s chars : Bytes)
    → has_byte chars c ≡ true
    → escape_bytes (c ∷ s) chars ≡ b'\\' ∷ c ∷ escape_bytes s chars
unfolding escape_bytes
escape_bytes-hit c s chars h = rw h

escape_bytes-miss :
    (c : ℕ) (s chars : Bytes)
    → has_byte chars c ≡ false
    → escape_bytes (c ∷ s) chars ≡ c ∷ escape_bytes s chars
unfolding escape_bytes
escape_bytes-miss c s chars h = rw h

element-backslash : (c : ℕ) → has_byte escapes_in_text c ≡ true → element c ≡ lit c
element-backslash c h = ground arith

not_backslash_of_text : (c : ℕ) → has_byte escapes_in_text c ≡ false → (c == b'\\') ≡ false
not_backslash_of_text c h = ground arith

not_backslash_of_value : (c : ℕ) → has_byte escapes_in_value c ≡ false → (c == b'\\') ≡ false
not_backslash_of_value c h = ground arith

element-no_meta : (c : ℕ) → has_byte escapes_in_value c ≡ false → element c ≡ lit c
element-no_meta c h = ground arith

pub elements-escaped_text :
    (t rest : Bytes)
    → elements true (escape_bytes t escapes_in_text ++ rest)
      ≡ elements false t ++ elements true rest
elements-escaped_text [] rest = unfold elements escape_bytes in refl
elements-escaped_text (c ∷ t) rest = elim (Bool-cases (has_byte escapes_in_text c)) [
  | inl e ↦ rw (
    escape_bytes-hit c t escapes_in_text e,
    elements-escape,
    elements-plain,
    element-backslash c e,
    elements-escaped_text t rest,
  )
  | inr e ↦
      rw (escape_bytes-miss c t escapes_in_text e, elements-plain)
        (elements-unescaped c _ (not_backslash_of_text c e)
          ∙ ap (λ x. element c ∷ x) (elements-escaped_text t rest))
]

pub elements-escaped_value :
    (v rest : Bytes)
    → elements true (escape_bytes v escapes_in_value ++ rest) ≡ map lit v ++ elements true rest
elements-escaped_value [] rest = unfold escape_bytes in refl
elements-escaped_value (c ∷ v) rest = elim (Bool-cases (has_byte escapes_in_value c)) [
  | inl e ↦
      rw (escape_bytes-hit c v escapes_in_value e, elements-escape, elements-escaped_value v rest)
  | inr e ↦ rw (escape_bytes-miss c v escapes_in_value e) (
      elements-unescaped c _ (not_backslash_of_value c e)
      ∙ ap₂ ◌∷◌ (element-no_meta c e) (elements-escaped_value v rest))
]

-- The elements of the pieces: those of each text with no byte escaped, and the bytes of each value.
abbrev pub meaning : ConditionKeys → Pieces → Option Elements
meaning keys [] = some []
meaning keys (text t ∷ ps) = append_elements (elements false t) (meaning keys ps)
meaning keys (unclosed t ∷ ps) = none
meaning keys (ref name ∷ ps) = elim (reference keys name) [
  | none ↦ none
  | some v ↦ append_elements (map lit v) (meaning keys ps)
]

abbrev pub elements_of : Option Bytes → Option Elements
elements_of none = none
elements_of (some s) = some (elements true s)

elements_of-text :
    (t : Bytes) (r : Option Bytes)
    → elements_of (append_some (write_escaped t escapes_in_text) r)
      ≡ append_elements (elements false t) (elements_of r)
elements_of-text t none = refl
elements_of-text t (some r) = rw (write_escaped-escape_bytes, elements-escaped_text t r)

elements_of-value :
    (v : Bytes) (r : Option Bytes)
    → elements_of (append_some (write_escaped v escapes_in_value) r)
      ≡ append_elements (map lit v) (elements_of r)
elements_of-value v none = refl
elements_of-value v (some r) = rw (write_escaped-escape_bytes, elements-escaped_value v r)

-- What the rendered pieces match, read back with escapes.
pub elements_of-render :
    (keys : ConditionKeys) (ps : Pieces)
    → elements_of (render keys escapes_in_text escapes_in_value ps) ≡ meaning keys ps
elements_of-render keys [] = unfold elements in refl
elements_of-render keys (text t ∷ ps) =
    elements_of-text t (render keys escapes_in_text escapes_in_value ps)
    ∙ ap (append_elements (elements false t)) (elements_of-render keys ps)
elements_of-render keys (unclosed t ∷ ps) = refl
elements_of-render keys (ref name ∷ ps) = elim (Option-cases (reference keys name)) [
  | inl r ↦ rw (r, render, meaning)
  | inr (v, r) ↦
      rw (r, render, meaning)
        (elements_of-value v (render keys escapes_in_text escapes_in_value ps)
          ∙ ap (append_elements (map lit v)) (elements_of-render keys ps))
]
