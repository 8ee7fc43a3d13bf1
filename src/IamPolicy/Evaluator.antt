-- ===== src/IamPolicy/Evaluator.antt =====
-- pkg/iampolicy/evaluator.go: which statements match, and the decision over all documents.
pub mod Precedence
pub mod Order
pub mod Narrowing
use bluebottle.Prelude.{
  ℕ, Bool, true, false, ◌&&◌, ◌||◌, not, Option, none, some, List, [], ◌∷◌, Bytes, codes, ◌==◌, leb,
  if◌then◌else◌, any, is_empty, eqb, is_some,
}
use bluebottle.Strings.{Platform}
use bluebottle.Strings.Spaces.{trim_space, trim_left, trim_right}
use bluebottle.IamPolicy.Variables.{ConditionKeys}
use bluebottle.IamPolicy.Patterns.{matches_any, matches_any_resource}
use bluebottle.IamPolicy.Operators.{supported_condition}
use bluebottle.IamPolicy.Conditions.{Condition, conditions_hold}
use bluebottle.IamPolicy.Documents.{
  Statement, PolicyDocument, effect_allow, effect_deny, version_2012, literal_variable_statements,
}

pub data Decision : Type 0 where
  deny allow : Decision

unfoldable pub matches_action : Platform → Statement → Bytes → Bool
unfolding matches_any
matches_action lib s action =
    if not (is_empty s.not_action)
    then not (matches_any lib s.not_action action true)
    else matches_any lib s.action action true

unfoldable pub matches_resource : Statement → Bytes → ConditionKeys → Bool → Bool
unfolding matches_any_resource
matches_resource s resource keys fail_closed =
    if not (is_empty s.not_resource)
    then not (matches_any_resource s.not_resource resource keys (not fail_closed))
    else matches_any_resource s.resource resource keys fail_closed

unfoldable pub well_formed_actions : Statement → Bool
well_formed_actions s = is_empty s.action || is_empty s.not_action

unfoldable pub well_formed_resources : Statement → Bool
well_formed_resources s = is_empty s.resource || is_empty s.not_resource

-- A construct that the evaluator cannot enforce: an operator, or its stand-in, and a key.
abbrev pub Construct : Type 0
Construct = Bytes × Bytes

-- The loops of `unenforceable` over the condition blocks.
unfoldable pub unsupported_key : Bytes → List (Bytes × List Bytes) → Option Construct
unsupported_key op [] = none
unsupported_key op ((key, values) ∷ by_key) =
    let rest = unsupported_key op by_key in
    if not (supported_condition op key) then some (op, key) else rest

unfoldable pub unsupported_block : Condition → Option Construct
unsupported_block [] = none
unsupported_block ((op, by_key) ∷ condition) = elim (unsupported_key op by_key) [
  | some found ↦ some found
  | none ↦ unsupported_block condition
]

unfoldable pub unenforceable : Statement → Option Construct
unfolding trim_left trim_right
unenforceable s =
    if not (well_formed_actions s)
    then some (codes "Action/NotAction", [])
    else if not (well_formed_resources s)
    then some (codes "Resource/NotResource", [])
    else if not (is_empty (trim_space s.principal))
        && not (eqb (trim_space s.principal) (codes "null"))
    then some (codes "Principal", [])
    else unsupported_block s.condition

-- `matches`, from the result of `unenforceable` on.
unfoldable pub matches_given :
    Platform → Statement → Bytes → Bytes → ConditionKeys → Bool → Bool → Bool
matches_given lib s action resource keys fail_closed found =
    if found
    then (if eqb s.effect effect_allow
        then false
        else (not (well_formed_actions s) || matches_action lib s action)
          && (not (well_formed_resources s) || matches_resource s resource keys fail_closed))
    else (matches_action lib s action && matches_resource s resource keys fail_closed)
      && conditions_hold lib s.condition keys fail_closed

unfoldable pub matches : Platform → Statement → Bytes → Bytes → ConditionKeys → Bool
matches lib s action resource keys =
    matches_given lib s action resource keys (not (eqb s.effect effect_allow))
      (is_some (unenforceable s))

-- The inner loop of `EvaluateWithKeys`: `none` is its early return of Deny, and `some` the value of
-- `hasAllow` behind it.
unfoldable pub eval_statements :
    Platform → Bytes → Bytes → ConditionKeys → List Statement → Bool → Option Bool
eval_statements lib action resource keys [] has_allow = some has_allow
eval_statements lib action resource keys (s ∷ statements) has_allow =
    let skipped = eval_statements lib action resource keys statements has_allow in
    let allowed = eval_statements lib action resource keys statements true in
    if not (matches lib s action resource keys)
    then skipped
    else if eqb s.effect effect_deny
    then none
    else if eqb s.effect effect_allow
    then allowed
    else none

-- The statements of a document as the evaluator reads them.
unfoldable pub effective_statements : PolicyDocument → List Statement
unfolding literal_variable_statements
effective_statements document =
    if not (eqb document.version version_2012)
    then literal_variable_statements document.statement
    else document.statement

-- The outer loop.
unfoldable pub eval_policies :
    Platform → Bytes → Bytes → ConditionKeys → List PolicyDocument → Bool → Option Bool
eval_policies lib action resource keys [] has_allow = some has_allow
eval_policies lib action resource keys (document ∷ policies) has_allow =
    elim (eval_statements lib action resource keys (effective_statements document) has_allow) [
      | none ↦ none
      | some has_allow' ↦ eval_policies lib action resource keys policies has_allow'
    ]

abbrev pub decide_by : Option Bool → Decision
decide_by none = deny
decide_by (some has_allow) = if has_allow then allow else deny

unfoldable pub evaluate_with_keys :
    Platform → Bytes → Bytes → List PolicyDocument → ConditionKeys → Decision
unfolding eval_policies
evaluate_with_keys lib action resource policies keys =
    decide_by (eval_policies lib action resource keys policies false)
