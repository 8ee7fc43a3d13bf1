-- ===== src/IamPolicy/Variables/Literal.antt =====
-- The rewriting of documents older than policy variables (pkg/iampolicy/variables.go): after it a text
-- is read as it was written.
use bluebottle.Prelude.{
  ℕ, ◌≡◌, refl, Bool, true, false, ◌&&◌, Option, none, some, [], ◌∷◌, Bytes, ◌==◌, if◌then◌else◌,
  append-nil, ap, ap₂, sym, ◌∙◌, Bool-cases, inl, inr, arith, is_some,
}
use bluebottle.Strings.{cut_open, cut_byte, prepend, contains_any}
use bluebottle.IamPolicy.Glob.Element.{Elements, elements, element}
use bluebottle.IamPolicy.Glob.Wildcard.{elements-plain}
use bluebottle.IamPolicy.Variables.{
  ConditionKeys, reference, literal_variables, replace_open, write_escaped,
}
use bluebottle.IamPolicy.Variables.Template.{
  Pieces, text, ref, Template, plain, broken, more, render, append_some,
}
use bluebottle.IamPolicy.Variables.Escaping.{meaning, append_elements}

-- `c` and the next byte open a reference.
abbrev opens : ℕ → Bytes → Bool
opens c [] = false
opens c (d ∷ s) = c == b'$' && d == b'{'

cut_open-cons : (c : ℕ) (s : Bytes) → opens c s ≡ false → cut_open (c ∷ s) ≡ prepend c (cut_open s)
unfolding cut_open
cut_open-cons c [] h = refl
cut_open-cons c (d ∷ s) h = rw h

abbrev push : ℕ → Pieces → Pieces
push c (text t ∷ ps) = text (c ∷ t) ∷ ps
push c ps = ps

Template-push :
    (c : ℕ) {s : Bytes} {ps : Pieces}
    → opens c s ≡ false
    → Template s ps
    → Template (c ∷ s) (push c ps)
Template-push c h (plain {s} e) = plain (cut_open-cons c s h ∙ rw e)
Template-push c h (broken {s} e e') = broken (cut_open-cons c s h ∙ rw e) e'
Template-push c h (more {s} e e' t) = more (cut_open-cons c s h ∙ rw e) e' t

-- The pieces of a rewritten text.
pub rewritten_pieces : Bytes → Pieces
rewritten_pieces [] = text [] ∷ []
rewritten_pieces (c ∷ []) = text (c ∷ []) ∷ []
rewritten_pieces (c ∷ d ∷ s) =
    let rewritten = text [] ∷ ref (b'$' ∷ []) ∷ push b'{' (rewritten_pieces s) in
    let kept = push c (rewritten_pieces (d ∷ s)) in
    if c == b'$' && d == b'{' then rewritten else kept

-- A kept byte does not open a reference with what follows it.
opens-replace_open :
    (c d : ℕ) (s : Bytes)
    → (c == b'$' && d == b'{') ≡ false
    → opens c (replace_open (d ∷ s)) ≡ false
unfolding replace_open
opens-replace_open c d [] h = h
opens-replace_open c d (e ∷ s) h = ground arith

opens-brace : (s : Bytes) → opens b'{' s ≡ false
opens-brace [] = refl
opens-brace (d ∷ s) = refl

pub Template-rewritten : (s : Bytes) → Template (replace_open s) (rewritten_pieces s)
unfolding replace_open rewritten_pieces cut_open cut_byte
Template-rewritten [] = plain refl
Template-rewritten (c ∷ []) = plain refl
Template-rewritten (c ∷ d ∷ s) = elim (Bool-cases (c == b'$' && d == b'{')) [
  | inl h ↦
      rw h
        (more refl refl (Template-push b'{' (opens-brace (replace_open s)) (Template-rewritten s)))
  | inr h ↦ rw h (Template-push c (opens-replace_open c d s h) (Template-rewritten (d ∷ s)))
]

verbatim : (s : Bytes) → write_escaped s [] ≡ s
unfolding write_escaped
verbatim s = ground (arith, no_hit s)
  where
    no_hit : (s : Bytes) → contains_any s [] ≡ false
    no_hit [] = refl
    no_hit (c ∷ s) = no_hit s

reference-dollar : (keys : ConditionKeys) → reference keys (b'$' ∷ []) ≡ some (b'$' ∷ [])
unfolding reference literal_variables
reference-dollar keys = refl

meaning-push :
    (keys : ConditionKeys) (c : ℕ) {s : Bytes} {ps : Pieces}
    → Template s ps
    → meaning keys (push c ps) ≡ append_elements (element c ∷ []) (meaning keys ps)
meaning-push keys c (plain {s} e) = rw elements-plain
meaning-push keys c (broken e e') = refl
meaning-push keys c (more {a} {name} {ps} e e' t) =
    prefix (elements-plain c a) (meaning keys (ref name ∷ ps))
  where
    prefix :
        elements false (c ∷ a) ≡ element c ∷ elements false a
        → (m : Option Elements)
        → append_elements (elements false (c ∷ a)) m
          ≡ append_elements (element c ∷ []) (append_elements (elements false a) m)
    prefix e none = refl
    prefix e (some es) = rw e

rewritten_pieces-open :
    (c d : ℕ) (s : Bytes)
    → (c == b'$' && d == b'{') ≡ true
    → rewritten_pieces (c ∷ d ∷ s) ≡ text [] ∷ ref (b'$' ∷ []) ∷ push b'{' (rewritten_pieces s)
unfolding rewritten_pieces
rewritten_pieces-open c d s h = rw h

rewritten_pieces-keep :
    (c d : ℕ) (s : Bytes)
    → (c == b'$' && d == b'{') ≡ false
    → rewritten_pieces (c ∷ d ∷ s) ≡ push c (rewritten_pieces (d ∷ s))
unfolding rewritten_pieces
rewritten_pieces-keep c d s h = rw h

opening : (c d : ℕ) → (c == b'$' && d == b'{') ≡ true → (c ≡ b'$') × (d ≡ b'{')
opening c d h = ground arith

-- A rewritten text matches what the text as written matches.
pub meaning-rewritten :
    (keys : ConditionKeys) (s : Bytes) → meaning keys (rewritten_pieces s) ≡ some (elements false s)
meaning-rewritten keys [] = unfold rewritten_pieces elements in refl
meaning-rewritten keys (c ∷ []) = unfold rewritten_pieces elements in refl
meaning-rewritten keys (c ∷ d ∷ s) = elim (Bool-cases (c == b'$' && d == b'{')) [
  | inl h ↦
      let (ec, ed) = opening c d h in
      rw
        (
          rewritten_pieces-open c d s h,
          meaning,
          reference-dollar keys,
          meaning-push keys b'{' (Template-rewritten s),
          meaning-rewritten keys s,
        )
        (ap some (
          unfold elements in
          refl
          ∙ ap₂ (λ x y. element x ∷ element y ∷ elements false s) (sym ec) (sym ed)
          ∙ sym (elements-plain c (d ∷ s) ∙ ap (λ es. element c ∷ es) (elements-plain d s))))
  | inr h ↦ rw (
    rewritten_pieces-keep c d s h,
    meaning-push keys c (Template-rewritten (d ∷ s)),
    meaning-rewritten keys (d ∷ s),
    elements-plain c (d ∷ s),
  )
]

render-push :
    (keys : ConditionKeys) (c : ℕ) {s : Bytes} {ps : Pieces}
    → Template s ps
    → render keys [] [] (push c ps) ≡ append_some (c ∷ []) (render keys [] [] ps)
render-push keys c (plain {s} e) = rw (verbatim (c ∷ s), verbatim s)
render-push keys c (broken e e') = refl
render-push keys c (more {a} {name} {ps} e e' t) = prefix (render keys [] [] (ref name ∷ ps))
  where
    prefix :
        (m : Option Bytes)
        → append_some (write_escaped (c ∷ a) []) m
          ≡ append_some (c ∷ []) (append_some (write_escaped a []) m)
    prefix none = refl
    prefix (some r) = rw (verbatim (c ∷ a), verbatim a)

-- A rewritten text renders to the text as written.
pub render-rewritten :
    (keys : ConditionKeys) (s : Bytes) → render keys [] [] (rewritten_pieces s) ≡ some s
render-rewritten keys [] = unfold rewritten_pieces in rw (verbatim [])
render-rewritten keys (c ∷ []) = unfold rewritten_pieces in rw (verbatim (c ∷ []))
render-rewritten keys (c ∷ d ∷ s) = elim (Bool-cases (c == b'$' && d == b'{')) [
  | inl h ↦
      let (ec, ed) = opening c d h in
      rw (
        rewritten_pieces-open c d s h,
        render,
        reference-dollar keys,
        render-push keys b'{' (Template-rewritten s),
        render-rewritten keys s,
        verbatim [],
        verbatim (b'$' ∷ []),
        ec,
        ed,
      )
  | inr h ↦ rw (
    rewritten_pieces-keep c d s h,
    render-push keys c (Template-rewritten (d ∷ s)),
    render-rewritten keys (d ∷ s),
  )
]

render-plain :
    (keys : ConditionKeys) {s : Bytes} {ps : Pieces}
    → Template s ps
    → is_some (cut_open s) ≡ false
    → render keys [] [] ps ≡ some s
unfolding is_some
render-plain keys (plain {s} e) h = rw (verbatim s, append-nil)
render-plain keys (broken e e') h = cc (rw e at h)
render-plain keys (more e e' t) h = cc (rw e at h)

-- A text that has no `${` behind the rewriting was not changed by it.
pub replace_open-plain :
    (s : Bytes) → is_some (cut_open (replace_open s)) ≡ false → replace_open s ≡ s
replace_open-plain s h =
    let keys : ConditionKeys = λ name. none in
    some_eq (replace_open s) s
      (sym (render-plain keys (Template-rewritten s) h) ∙ render-rewritten keys s)
  where
    some_eq : (x y : Bytes) → some x ≡ some y → x ≡ y
    some_eq x y e = cc
