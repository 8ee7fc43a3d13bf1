-- ===== src/IamPolicy/Samples.antt =====
-- Patterns and variables of pkg/iampolicy on small texts, and the theorems of these modules at them.
use mathlib.Core.List.{Permᴰ}
use bluebottle.Prelude.{
  is_some, ◌≡◌, ◌≢◌, ◌↔◌, refl, Bool, true, false, not, Option, none, some, List, [], ◌∷◌, ◌++◌,
  Bytes, codes, if◌then◌else◌, any, eqb, eqb_iff, ℕ, arith, Bool-cases, inl, inr, map, ap, sym, ◌∙◌,
}
use bluebottle.Prelude.Bounds.{Bounded}
use bluebottle.Strings.{Platform, cut_open, cut_byte, equal_fold}
use bluebottle.IamPolicy.Glob.{match_glob, match_wildcard}
use bluebottle.IamPolicy.Glob.Element.{Matches, elements, Elements, lit, star}
use bluebottle.IamPolicy.Glob.Correct.{match_glob_iff}
use bluebottle.IamPolicy.Glob.Wildcard.{match_wildcard_iff}
use bluebottle.IamPolicy.Variables.{
  ConditionKeys, key_username, substitutable, literal_variables, variable_ok, unresolvable,
  unresolvable_variable, expand_variables, reference, replace_open,
}
use bluebottle.IamPolicy.Variables.Extension.{Extends}
use bluebottle.IamPolicy.Variables.Template.{
  Pieces, Template, more, plain, text, ref, first_fault, unresolvable_variable-first_fault,
}
use bluebottle.IamPolicy.Variables.Checks.{
  Supplies, expand_variables-accepted, expand_variables-rejected,
}
use bluebottle.IamPolicy.Variables.Escaping.{meaning}
use bluebottle.IamPolicy.Patterns.{match_pattern, matches_any_resource}
use bluebottle.IamPolicy.Operators.{negated_operators, base_operator, supported_condition}
use bluebottle.IamPolicy.Conditions.{
  Condition, condition_holds, conditions_hold, block_holds, entry_holds, null_holds, condition_loop,
  switch_holds, equals_any,
}
use bluebottle.IamPolicy.Conditions.Narrowing.{condition_holds-Bounded}
use bluebottle.IamPolicy.Conditions.Recursion.{condition_holds-recursion}
use bluebottle.IamPolicy.Conditions.OldVersion.{
  matches_any_resource-replace_open, equals_any-replace_open,
}
use bluebottle.IamPolicy.Patterns.Meaning.{match_pattern_iff}
use bluebottle.IamPolicy.Documents.{
  Statement, PolicyDocument, effect_allow, effect_deny, version_2012,
}
use bluebottle.IamPolicy.Evaluator.{
  Decision, deny, allow, evaluate_with_keys, eval_policies, eval_statements, effective_statements,
  matches, matches_given, matches_action, matches_resource, well_formed_actions,
  well_formed_resources, unenforceable, unsupported_block, unsupported_key,
}
use bluebottle.IamPolicy.Evaluator.Precedence.{
  all_statements, decision_of, evaluate_with_keys-decision_of,
}
use bluebottle.IamPolicy.Evaluator.Order.{entries, evaluate_with_keys-perm, matches-Reordered}
use bluebottle.IamPolicy.Evaluator.Narrowing.{evaluate_with_keys-narrows}
mod Evaluation

-- A platform that reads no address and no date.
abbrev pub plain_platform : Platform
plain_platform = record {
  wide_lower = λ s. s;
  wide_fold = eqb;
  parse_addr = λ s. none;
  parse_prefix = λ s. none;
  parse_time = λ layout s. none;
}

abbrev pub no_keys : ConditionKeys
no_keys name = none

abbrev pub as_bob : ConditionKeys
as_bob name = if eqb name key_username then some (codes "b*b") else none

backtracks : match_wildcard (codes "arn:*:role/app-?") (codes "arn:x:role/app:role/app-1") ≡ true
unfolding match_wildcard
backtracks = refl

match_glob_iff_example :
    (match_glob (codes "a*\\*c") (codes "ab*c") true ≡ true)
    ↔ Matches (elements true (codes "a*\\*c")) (codes "ab*c")
match_glob_iff_example = match_glob_iff (codes "a*\\*c") (codes "ab*c") true

abbrev pub home : Bytes
home = codes "h/${aws:username}*"

-- The star in the user's name is no wildcard; that of the pattern is one.
home_of_bob : match_pattern home (codes "h/b*b/x") as_bob false ≡ true
unfolding match_pattern
home_of_bob = refl

home_of_bxb : match_pattern home (codes "h/bxb/x") as_bob false ≡ false
unfolding match_pattern
home_of_bxb = refl

no_home_without_name : match_pattern home (codes "h/b*b/x") no_keys false ≡ false
unfolding match_pattern
no_home_without_name = refl

abbrev pieces_of_home : Pieces
pieces_of_home = text (codes "h/") ∷ ref key_username ∷ text (codes "*") ∷ []

Template-home : Template home pieces_of_home
unfolding cut_open cut_byte
Template-home = more refl refl (plain refl)

abbrev home_elements : Elements
home_elements = lit b'h' ∷ lit b'/' ∷ lit b'b' ∷ lit b'*' ∷ lit b'b' ∷ star ∷ []

meaning-home : meaning as_bob pieces_of_home ≡ some home_elements
unfolding reference elements literal_variables substitutable
meaning-home = refl

match_pattern_iff_example :
    (match_pattern home (codes "h/b*b/x") as_bob false ≡ true)
    ↔ Matches home_elements (codes "h/b*b/x")
match_pattern_iff_example =
    match_pattern_iff home (codes "h/b*b/x") pieces_of_home as_bob false home_elements Template-home
      meaning-home

abbrev every_key : ConditionKeys
every_key name = some name

every_key-Supplies : Supplies every_key
every_key-Supplies name h = (name, refl)

accepted_home : (unresolvable_variable home).1 ≡ variable_ok
unfolding unresolvable_variable
accepted_home = refl

expand_variables-accepted_example : (expand_variables home every_key true).1 ≢ unresolvable
expand_variables-accepted_example =
    expand_variables-accepted home every_key true accepted_home every_key-Supplies

abbrev misspelt : Bytes
misspelt = codes "h/${aws:usrname}"

faulted_misspelt : (unresolvable_variable misspelt).1 ≢ variable_ok
unfolding unresolvable_variable
faulted_misspelt = λ h. cc

expand_variables-rejected_example : expand_variables misspelt every_key false ≡ ([], unresolvable)
expand_variables-rejected_example =
    expand_variables-rejected misspelt every_key false faulted_misspelt

unresolvable_variable-first_fault_example : unresolvable_variable home ≡ first_fault pieces_of_home
unresolvable_variable-first_fault_example = unresolvable_variable-first_fault Template-home
