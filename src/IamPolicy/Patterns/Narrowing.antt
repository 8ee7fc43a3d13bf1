-- ===== src/IamPolicy/Patterns/Narrowing.antt =====
-- pkg/iampolicy/match.go: patterns at a door that lacks a key, against a door that has it.
use bluebottle.Prelude.{
  ◌≡◌, ◌≢◌, refl, Bool, true, false, Option, none, some, List, [], ◌∷◌, Bytes, if◌then◌else◌,
  length, ltb, ap, ◌∙◌,
}
use bluebottle.Prelude.Bounds.{
  Bounded, Bounded-const, Bounded-default, Bounded-and, Bounded-if, Bounded-any, Bounded-cong,
  Bounded-settled, Bounded-guard,
}
use bluebottle.IamPolicy.Variables.{
  ConditionKeys, Expansion, resolved, literal, unresolvable, expand_variables,
}
use bluebottle.IamPolicy.Variables.Extension.{Extends, expand_variables-extends}
use bluebottle.Strings.{split_n}
use bluebottle.IamPolicy.Patterns.{
  match_expanded, match_pattern, matches_any_resource, is_unresolvable, match_arn, match_parts,
  split_arn, arn_components,
}

pub settled_of : (e : Expansion) → is_unresolvable e ≡ false → e ≢ unresolvable
settled_of resolved h = λ k. cc
settled_of literal h = λ k. cc
settled_of unresolvable h = cc

-- The end of `matchARN`, from the parts of the pattern on.
abbrev arn_parts : Bytes → ConditionKeys → Bool → Option (List Bytes) → Bool
arn_parts value keys fail_closed o = elim o [
  | none ↦ false
  | some parts ↦
      if ltb (length (split_n arn_components value)) arn_components
      then fail_closed
      else match_parts parts (split_n arn_components value) keys fail_closed
]

module _ (keys keys' : ConditionKeys) (ext : Extends keys keys') where
  -- A test of an expanded text that takes the default where the text is unresolvable.
  pub Bounded-expanded :
      (s : Bytes) (escape_meta : Bool) (f : Bytes × Expansion → Bool → Bool)
      → ((x : Bytes × Expansion) (d : Bool) → f x d ≡ (if is_unresolvable x.1 then d else f x true))
      → Bounded keys keys' (λ k d. f (expand_variables s k escape_meta) d)
  Bounded-expanded s escape_meta f split =
      Bounded-cong keys keys' _
        (λ k d.
          if is_unresolvable (expand_variables s k escape_meta).1
          then d
          else f (expand_variables s k escape_meta) true)
        (λ k d. split (expand_variables s k escape_meta) d)
        (Bounded-guard keys keys' (λ k. is_unresolvable (expand_variables s k escape_meta).1)
          (λ k d. f (expand_variables s k escape_meta) true)
          (λ h. ap (λ x. is_unresolvable x.1) (same h) ∙ h)
          (λ h.
            Bounded-settled keys keys' (λ k. f (expand_variables s k escape_meta) true)
              (ap (λ x. f x true) (same h))))
    where
      same :
          is_unresolvable (expand_variables s keys escape_meta).1 ≡ false
          → expand_variables s keys' escape_meta ≡ expand_variables s keys escape_meta
      same h = expand_variables-extends keys keys' ext s escape_meta (settled_of _ h)

  pub match_pattern-Bounded :
      (pattern value : Bytes) → Bounded keys keys' (λ k d. match_pattern pattern value k d)
  unfolding match_pattern
  match_pattern-Bounded pattern value =
      Bounded-expanded pattern true (λ x d. match_expanded x pattern value d) split
    where
      split :
          (x : Bytes × Expansion) (d : Bool)
          → match_expanded x pattern value d
            ≡ (if is_unresolvable x.1 then d else match_expanded x pattern value true)
      split (t, resolved) d = refl
      split (t, literal) d = refl
      split (t, unresolvable) d = refl

  pub matches_any_resource-Bounded :
      (patterns : List Bytes) (resource : Bytes)
      → Bounded keys keys' (λ k d. matches_any_resource patterns resource k d)
  unfolding matches_any_resource
  matches_any_resource-Bounded patterns resource =
      Bounded-any keys keys' (λ p k d. match_pattern p resource k d) patterns
        (λ p. match_pattern-Bounded p resource)

  match_parts-Bounded :
      (patterns values : List Bytes) → Bounded keys keys' (λ k d. match_parts patterns values k d)
  unfolding match_parts
  match_parts-Bounded [] values = Bounded-const keys keys' true
  match_parts-Bounded (p ∷ patterns) [] = Bounded-const keys keys' false
  match_parts-Bounded (p ∷ patterns) (v ∷ values) =
      Bounded-and keys keys' (λ k d. match_pattern p v k d) (λ k d. match_parts patterns values k d)
        (match_pattern-Bounded p v) (match_parts-Bounded patterns values)

  pub match_arn-Bounded :
      (pattern value : Bytes) → Bounded keys keys' (λ k d. match_arn pattern value k d)
  unfolding match_arn
  match_arn-Bounded pattern value =
      Bounded-guard keys keys' (λ k. is_unresolvable (expand_variables pattern k true).1)
        (λ k d. arn_parts value k d (split_arn pattern))
        (λ h. ap (λ x. is_unresolvable x.1) (same h) ∙ h) (λ h. by_parts (split_arn pattern))
    where
      same :
          is_unresolvable (expand_variables pattern keys true).1 ≡ false
          → expand_variables pattern keys' true ≡ expand_variables pattern keys true
      same h = expand_variables-extends keys keys' ext pattern true (settled_of _ h)

      by_parts : (o : Option (List Bytes)) → Bounded keys keys' (λ k d. arn_parts value k d o)
      by_parts none = Bounded-const keys keys' false
      by_parts (some parts) =
          Bounded-if keys keys' (ltb (length (split_n arn_components value)) arn_components)
            (λ k d. d) (λ k d. match_parts parts (split_n arn_components value) k d)
            (Bounded-default keys keys') (match_parts-Bounded parts _)
