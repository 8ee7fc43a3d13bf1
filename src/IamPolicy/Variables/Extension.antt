-- ===== src/IamPolicy/Variables/Extension.antt =====
-- pkg/iampolicy/variables.go: expansion for a request that carries more keys.
use bluebottle.Prelude.{
  ◌≡◌, ◌≢◌, refl, Bool, true, false, not, Option, none, some, [], ◌∷◌, Bytes, if◌then◌else◌,
  is_some, Option-cases, Bool-cases, inl, inr, sym, ◌∙◌, ap,
}
use bluebottle.Strings.{cut_open}
use bluebottle.IamPolicy.Variables.{
  ConditionKeys, substitutable, literal_variables, unresolvable, write_escaped, reference,
  expand_variables,
}
use bluebottle.IamPolicy.Variables.Template.{
  Pieces, text, ref, unclosed, pieces_of, append_some, render, finish,
}
use bluebottle.IamPolicy.Variables.Checks.{expand_variables-render, expand_variables-literal}

-- Every key of `keys` has the same value in `keys'`, which may carry more.
abbrev pub Extends : ConditionKeys → ConditionKeys → Type 0
Extends keys keys' = (name v : Bytes) → keys name ≡ some v → keys' name ≡ some v

module _ (keys keys' : ConditionKeys) (ext : Extends keys keys') where
  reference-extends :
      (name v : Bytes) → reference keys name ≡ some v → reference keys' name ≡ some v
  unfolding reference
  reference-extends name v h = by_kind (literal_variables name) (substitutable name) h
    where
      by_kind :
          (l : Option Bytes) (b : Bool)
          → elim l as (λ x. Option Bytes) [
            | some value ↦ some value
            | none ↦ if not b then none else keys name
          ]
            ≡ some v
          → elim l as (λ x. Option Bytes) [
            | some value ↦ some value
            | none ↦ if not b then none else keys' name
          ]
            ≡ some v
      by_kind (some l) b h = h
      by_kind none false h = cc
      by_kind none true h = ext name v h

  append_some_inv :
      (a r : Bytes) (o o' : Option Bytes)
      → ((x : Bytes) → o ≡ some x → o' ≡ some x)
      → append_some a o ≡ some r
      → append_some a o' ≡ some r
  append_some_inv a r none o' k h = cc
  append_some_inv a r (some x) o' k h = rw (k x refl) h

  render-extends :
      (tc vc : Bytes) (ps : Pieces) (r : Bytes)
      → render keys tc vc ps ≡ some r
      → render keys' tc vc ps ≡ some r
  render-extends tc vc [] r h = h
  render-extends tc vc (text t ∷ ps) r h =
      append_some_inv (write_escaped t tc) r (render keys tc vc ps) (render keys' tc vc ps)
        (render-extends tc vc ps) h
  render-extends tc vc (unclosed t ∷ ps) r h = h
  render-extends tc vc (ref name ∷ ps) r h = elim (Option-cases (reference keys name)) [
    | inl e ↦ cc (rw (e, render) at h)
    | inr (v, e) ↦
        rw (reference-extends name v e, render)
          (append_some_inv (write_escaped v vc) r (render keys tc vc ps) (render keys' tc vc ps)
            (render-extends tc vc ps) (rw (e, render) at h))
  ]

  finish-resolved : (o : Option Bytes) → (finish [] o).1 ≢ unresolvable → (r : Bytes) × (o ≡ some r)
  finish-resolved none h = absurd (h refl)
  finish-resolved (some r) h = (r, refl)

  -- An expansion that is resolved for a request is the same for one that carries more keys.
  pub expand_variables-extends :
      (s : Bytes) (escape_meta : Bool)
      → (expand_variables s keys escape_meta).1 ≢ unresolvable
      → expand_variables s keys' escape_meta ≡ expand_variables s keys escape_meta
  expand_variables-extends s escape_meta h =
      let (ps, t) = pieces_of s in
      elim (Bool-cases (is_some (cut_open s))) [
        | inr e ↦
            expand_variables-literal s keys' escape_meta e
            ∙ sym (expand_variables-literal s keys escape_meta e)
        | inl e ↦
            let eq = expand_variables-render s ps keys escape_meta t e in
            let (r, k) = finish-resolved (render keys _ _ ps) (rw eq at h) in
            expand_variables-render s ps keys' escape_meta t e
            ∙ ap (finish []) (render-extends _ _ ps r k ∙ sym k)
            ∙ sym eq
      ]
