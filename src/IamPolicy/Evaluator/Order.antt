-- ===== src/IamPolicy/Evaluator/Order.antt =====
-- What the answer of pkg/iampolicy/evaluator.go does not depend on: the order of the documents, and the
-- order in which Go ranges over the maps of a Condition block.
use mathlib.Core.List.{Permᴰ}
use bluebottle.Prelude.{
  ◌≡◌, refl, Bool, true, false, ◌&&◌, ◌||◌, not, Option, some, List, [], ◌∷◌, Bytes, if◌then◌else◌,
  any, all, any-append, any-perm, all-perm, ap, ap₂, sym, ◌∙◌, is_some, inl, inr, Option-cases, eqb,
}
use bluebottle.Strings.{Platform}
use bluebottle.IamPolicy.Variables.{ConditionKeys}
use bluebottle.IamPolicy.Operators.{supported_condition, base_operator}
use bluebottle.IamPolicy.Conditions.{Condition, entry_holds, block_holds, conditions_hold}
use bluebottle.IamPolicy.Documents.{Statement, PolicyDocument, effect_allow}
use bluebottle.IamPolicy.Evaluator.{
  Decision, effective_statements, evaluate_with_keys, unsupported_key, unsupported_block,
  unenforceable, well_formed_actions, well_formed_resources, matches, matches_given, matches_action,
  matches_resource,
}
use bluebottle.IamPolicy.Evaluator.Precedence.{
  all_statements, grants, forbids, evaluate_with_keys-decision_of,
}

any-all_statements :
    (p : Statement → Bool) (policies : List PolicyDocument)
    → any p (all_statements policies) ≡ any (λ d. any p (effective_statements d)) policies
any-all_statements p [] = refl
any-all_statements p (d ∷ policies) =
    any-append p (effective_statements d) (all_statements policies)
    ∙ ap (λ t. any p (effective_statements d) || t) (any-all_statements p policies)

any-reordered :
    (p : Statement → Bool) {policies policies' : List PolicyDocument}
    → Permᴰ policies policies'
    → any p (all_statements policies) ≡ any p (all_statements policies')
any-reordered p {policies} {policies'} r =
    any-all_statements p policies
    ∙ any-perm (λ d. any p (effective_statements d)) r
    ∙ sym (any-all_statements p policies')

-- The decision does not depend on the order in which the documents are supplied.
pub evaluate_with_keys-perm :
    (lib : Platform) (action resource : Bytes) (keys : ConditionKeys)
    {policies policies' : List PolicyDocument}
    → Permᴰ policies policies'
    → evaluate_with_keys lib action resource policies keys
      ≡ evaluate_with_keys lib action resource policies' keys
evaluate_with_keys-perm lib action resource keys {policies} {policies'} r =
    evaluate_with_keys-decision_of lib action resource keys policies
    ∙ ap₂ (λ f g. if f then Decision.deny else if g then Decision.allow else Decision.deny)
        (any-reordered (forbids lib action resource keys) r)
        (any-reordered (grants lib action resource keys) r)
    ∙ sym (evaluate_with_keys-decision_of lib action resource keys policies')

-- The same map of maps, with the entries of some of its maps in another order.
pub data Reordered : Condition → Condition → Type 0 where
  blocks : {c d : Condition} → Permᴰ c d → Reordered c d
  entries :
      {op : Bytes} {e f : List (Bytes × List Bytes)} {c : Condition}
      → Permᴰ e f
      → Reordered ((op, e) ∷ c) ((op, f) ∷ c)
  both : {c d e : Condition} → Reordered c d → Reordered d e → Reordered c e

module _ (lib : Platform) (keys : ConditionKeys) (fail_closed : Bool) where
  conditions_hold-Reordered :
      {c d : Condition}
      → Reordered c d
      → conditions_hold lib c keys fail_closed ≡ conditions_hold lib d keys fail_closed
  unfolding conditions_hold
  conditions_hold-Reordered (blocks r) = all-perm (block_holds lib keys fail_closed) r
  conditions_hold-Reordered (entries {op} {e} {f} {c} r) =
      ap (λ b. b && all (block_holds lib keys fail_closed) c)
        (unfold block_holds in
          all-perm (entry_holds lib keys fail_closed (base_operator op).0 (base_operator op).1) r)
  conditions_hold-Reordered (both r s) = conditions_hold-Reordered r ∙ conditions_hold-Reordered s

abbrev unsupported_entry : Bytes → Bytes × List Bytes → Bool
unsupported_entry op (key, values) = not (supported_condition op key)

is_some-if :
    {A : Type 0} (b : Bool) (x : A) (o : Option A)
    → is_some (if b then some x else o) ≡ (b || is_some o)
unfolding is_some
is_some-if true x o = refl
is_some-if false x o = refl

unsupported_key-any :
    (op : Bytes) (by_key : List (Bytes × List Bytes))
    → is_some (unsupported_key op by_key) ≡ any (unsupported_entry op) by_key
unfolding unsupported_key
unsupported_key-any op [] = unfold is_some in refl
unsupported_key-any op ((key, values) ∷ by_key) =
    is_some-if (not (supported_condition op key)) (op, key) (unsupported_key op by_key)
    ∙ ap (λ b. not (supported_condition op key) || b) (unsupported_key-any op by_key)

unsupported_block-first :
    (op : Bytes) (by_key : List (Bytes × List Bytes)) (c : Condition)
    → is_some (unsupported_block ((op, by_key) ∷ c))
      ≡ (is_some (unsupported_key op by_key) || is_some (unsupported_block c))
unfolding unsupported_block is_some
unsupported_block-first op by_key c = elim (Option-cases (unsupported_key op by_key)) [
  | inl e ↦ rw (e, unsupported_block)
  | inr (found, e) ↦ rw (e, unsupported_block)
]

-- The construct that the loops find is any construct of a block.
unsupported_block-any :
    (c : Condition)
    → is_some (unsupported_block c) ≡ any (λ (op, by_key). any (unsupported_entry op) by_key) c
unsupported_block-any [] = unfold unsupported_block is_some in refl
unsupported_block-any ((op, by_key) ∷ c) =
    unsupported_block-first op by_key c
    ∙ ap₂ ◌||◌ (unsupported_key-any op by_key) (unsupported_block-any c)

unsupported_block-Reordered :
    {c d : Condition}
    → Reordered c d
    → is_some (unsupported_block c) ≡ is_some (unsupported_block d)
unsupported_block-Reordered {c} {d} r =
    unsupported_block-any c ∙ same_answer r ∙ sym (unsupported_block-any d)
  where
    same_answer :
        {c d : Condition}
        → Reordered c d
        → any (λ (op, by_key). any (unsupported_entry op) by_key) c
          ≡ any (λ (op, by_key). any (unsupported_entry op) by_key) d
    same_answer (blocks r) = any-perm _ r
    same_answer (entries {op} {c} r) =
        ap (λ b. b || any (λ (op, by_key). any (unsupported_entry op) by_key) c)
          (any-perm (unsupported_entry op) r)
    same_answer (both r s) = same_answer r ∙ same_answer s

unenforceable-Reordered :
    (s : Statement) {d : Condition}
    → Reordered s.condition d
    → is_some (unenforceable s) ≡ is_some (unenforceable (record s { condition = d }))
unfolding unenforceable well_formed_actions well_formed_resources
unenforceable-Reordered s {d} r =
    found_by _ _ _ (not (well_formed_actions s)) (not (well_formed_resources s)) _ _ _
      (unsupported_block-Reordered r)
  where
    found_by :
        (x y z : Bytes × Bytes) (a b p : Bool) (o o' : Option (Bytes × Bytes))
        → is_some o ≡ is_some o'
        → is_some (if a then some x else if b then some y else if p then some z else o)
          ≡ is_some (if a then some x else if b then some y else if p then some z else o')
    found_by x y z true b p o o' e = refl
    found_by x y z false true p o o' e = refl
    found_by x y z false false true o o' e = refl
    found_by x y z false false false o o' e = e

matches_given-Reordered :
    (lib : Platform) (action resource : Bytes) (keys : ConditionKeys) (fail_closed found : Bool)
    (s : Statement) {d : Condition}
    → Reordered s.condition d
    → matches_given lib s action resource keys fail_closed found
      ≡ matches_given lib (record s { condition = d }) action resource keys fail_closed found
unfolding matches_given matches_action matches_resource well_formed_actions well_formed_resources
matches_given-Reordered lib action resource keys fail_closed true s r = refl
matches_given-Reordered lib action resource keys fail_closed false s r =
    ap (λ b. (matches_action lib s action && matches_resource s resource keys fail_closed) && b)
      (conditions_hold-Reordered lib keys fail_closed r)

-- A statement matches the same requests in whatever order Go ranges over the maps of its Condition.
pub matches-Reordered :
    (lib : Platform) (action resource : Bytes) (keys : ConditionKeys) (s : Statement)
    {d : Condition}
    → Reordered s.condition d
    → matches lib s action resource keys
      ≡ matches lib (record s { condition = d }) action resource keys
unfolding matches
matches-Reordered lib action resource keys s {d} r =
    ap (matches_given lib s action resource keys (not (eqb s.effect effect_allow)))
      (unenforceable-Reordered s r)
    ∙ matches_given-Reordered lib action resource keys (not (eqb s.effect effect_allow)) _ s r
