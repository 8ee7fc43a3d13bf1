-- ===== src/IamPolicy/Evaluator/Precedence.antt =====
-- The order of evaluation of pkg/iampolicy/evaluator.go, described without a loop: an explicit Deny
-- wins over every Allow, and without an Allow the answer is Deny.
use bluebottle.Prelude.{
  ◌≡◌, refl, Bool, true, false, ◌&&◌, ◌||◌, not, Option, none, some, List, [], ◌∷◌, ◌++◌, arith,
  Bytes, if◌then◌else◌, any, eqb, eqb_iff, ◌∙◌, sym, ap, any-append,
}
use bluebottle.Strings.{Platform}
use bluebottle.IamPolicy.Variables.{ConditionKeys}
use bluebottle.IamPolicy.Documents.{Statement, PolicyDocument, effect_allow, effect_deny}
use bluebottle.IamPolicy.Evaluator.{
  Decision, deny, allow, matches, eval_statements, effective_statements, eval_policies, decide_by,
  evaluate_with_keys,
}

-- The statements of all documents, as they are read.
abbrev pub all_statements : List PolicyDocument → List Statement
all_statements [] = []
all_statements (document ∷ policies) = effective_statements document ++ all_statements policies

||-false : (b : Bool) → (b || false) ≡ b
||-false b = ground arith

deny-not_allow : (effect : Bytes) → eqb effect effect_deny ≡ true → eqb effect effect_allow ≡ false
deny-not_allow effect h = rw ((eqb_iff effect effect_deny).0 h)

-- One statement more, with its tests as variables.
outcome_step :
    (m d a f g h : Bool)
    → (d ≡ true → a ≡ false)
    → (if not m
        then (if f then none else some (h || g))
        else if d
        then none
        else if a
        then (if f then none else some (true || g))
        else none)
      ≡ (if (m && not a) || f then none else some (h || ((m && a) || g)))
outcome_step m d a f g h disjoint = ground arith

append_step :
    (f f' g g' h : Bool)
    → (if f || f' then none else some (h || (g || g')))
      ≡ elim (if f then none else some (h || g)) as (λ o. Option Bool) [
        | none ↦ none
        | some k ↦ if f' then none else some (k || g')
      ]
append_step f f' g g' h = ground arith

decided :
    (f g : Bool)
    → decide_by (if f then none else some (false || g))
      ≡ (if f then deny else if g then allow else deny)
decided f g = ground arith

module _ (lib : Platform) (action resource : Bytes) (keys : ConditionKeys) where
  -- A statement that matches and grants.
  abbrev pub grants : Statement → Bool
  grants s = matches lib s action resource keys && eqb s.effect effect_allow

  -- A statement that matches and does not say Allow: a Deny, or an effect that is not recognised.
  abbrev pub forbids : Statement → Bool
  forbids s = matches lib s action resource keys && not (eqb s.effect effect_allow)

  abbrev pub decision_of : List Statement → Decision
  decision_of statements =
      if any forbids statements then deny else if any grants statements then allow else deny

  -- The loops' state after a list of statements.
  abbrev outcome : List Statement → Bool → Option Bool
  outcome statements has_allow =
      if any forbids statements then none else some (has_allow || any grants statements)

  eval_statements-outcome :
      (statements : List Statement) (has_allow : Bool)
      → eval_statements lib action resource keys statements has_allow ≡ outcome statements has_allow
  unfolding eval_statements
  eval_statements-outcome [] has_allow = ap some (sym (||-false has_allow))
  eval_statements-outcome (s ∷ statements) has_allow =
      rw (eval_statements-outcome statements has_allow, eval_statements-outcome statements true)
        (outcome_step (matches lib s action resource keys) (eqb s.effect effect_deny)
          (eqb s.effect effect_allow) (any forbids statements) (any grants statements) has_allow
          (deny-not_allow s.effect))

  outcome-append :
      (xs ys : List Statement) (has_allow : Bool)
      → outcome (xs ++ ys) has_allow
        ≡ elim (outcome xs has_allow) [ none ↦ none | some h ↦ outcome ys h ]
  outcome-append xs ys has_allow =
      rw (any-append forbids xs ys, any-append grants xs ys)
        (append_step (any forbids xs) (any forbids ys) (any grants xs) (any grants ys) has_allow)

  eval_policies-outcome :
      (policies : List PolicyDocument) (has_allow : Bool)
      → eval_policies lib action resource keys policies has_allow
        ≡ outcome (all_statements policies) has_allow
  unfolding eval_policies
  eval_policies-outcome [] has_allow = ap some (sym (||-false has_allow))
  eval_policies-outcome (document ∷ policies) has_allow =
      rw (eval_statements-outcome (effective_statements document) has_allow, eval_policies)
        (rest (eval_policies-outcome policies) (outcome (effective_statements document) has_allow)
          ∙ sym
              (outcome-append (effective_statements document) (all_statements policies) has_allow))
    where
      rest :
          ((h : Bool)
            → eval_policies lib action resource keys policies h
              ≡ outcome (all_statements policies) h)
          → (o : Option Bool)
          → ◌≡◌ {A = Option Bool}
              (elim o [ none ↦ none | some h ↦ eval_policies lib action resource keys policies h ])
              (elim o [ none ↦ none | some h ↦ outcome (all_statements policies) h ])
      rest ih none = refl
      rest ih (some h) = ih h

  -- `EvaluateWithKeys` answers Deny if a statement of any document matches and does not say Allow,
  -- and otherwise Allow exactly if a statement of any document matches and says Allow.
  pub evaluate_with_keys-decision_of :
      (policies : List PolicyDocument)
      → evaluate_with_keys lib action resource policies keys ≡ decision_of (all_statements policies)
  unfolding evaluate_with_keys
  evaluate_with_keys-decision_of policies =
      rw (eval_policies-outcome policies false)
        (decided (any forbids (all_statements policies)) (any grants (all_statements policies)))
