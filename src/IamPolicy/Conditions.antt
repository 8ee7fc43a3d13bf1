-- ===== src/IamPolicy/Conditions.antt =====
-- pkg/iampolicy/conditions.go: when the condition blocks of a statement hold.
--
-- A map is the list of its entries, in the order in which a range loop visits them.
pub mod Narrowing
pub mod Recursion
pub mod OldVersion
use bluebottle.Prelude.{
  ℕ, zero, suc, ◌≡◌, refl, Bool, true, false, ◌&&◌, ◌||◌, not, Option, none, some, List, [], ◌∷◌,
  Bytes, codes, if◌then◌else◌, any, all, eqb, is_some,
}
use bluebottle.Strings.{Platform, equal_fold}
use bluebottle.IamPolicy.Variables.{
  ConditionKeys, Expansion, resolved, literal, unresolvable, expand_variables,
}
use bluebottle.IamPolicy.Patterns.{match_pattern, match_arn}
use bluebottle.IamPolicy.Numbers.{numeric_holds_any}
use bluebottle.IamPolicy.Dates.{date_holds_any}
use bluebottle.IamPolicy.Addresses.{ip_in_any}
use bluebottle.IamPolicy.Operators.{
  op_string_equals, op_string_equals_ignore_case, op_string_like, op_ip_address, op_bool,
  op_arn_equals, op_arn_like, op_null, op_date_equals, op_date_less_than, op_date_less_than_equals,
  op_date_greater_than, op_date_greater_than_equals, op_numeric_equals, op_numeric_less_than,
  op_numeric_less_than_equals, op_numeric_greater_than, op_numeric_greater_than_equals,
  negated_operators, base_operator,
}

-- The operator blocks of a statement: an operator, and for each key its values.
abbrev pub Condition : Type 0
Condition = List (Bytes × List (Bytes × List Bytes))

-- One round of `equalsAny`.
unfoldable pub expanded_equals : Platform → Bytes × Expansion → Bytes → Bool → Bool → Bool
unfolding equal_fold
expanded_equals lib (text, unresolvable) actual fail_closed fold = fail_closed
expanded_equals lib (text, resolved) actual fail_closed fold =
    if fold then equal_fold lib text actual else eqb text actual
expanded_equals lib (text, literal) actual fail_closed fold =
    if fold then equal_fold lib text actual else eqb text actual

unfoldable pub equals_any : Platform → Bytes → List Bytes → ConditionKeys → Bool → Bool → Bool
unfolding expanded_equals expand_variables
equals_any lib actual values keys fail_closed fold =
    any (λ v. expanded_equals lib (expand_variables v keys false) actual fail_closed fold) values

unfoldable pub null_holds : Platform → Bool → List Bytes → Bool
unfolding equal_fold
null_holds lib present values =
    any
      (λ v.
        (equal_fold lib v (codes "true") && not present)
        || (equal_fold lib v (codes "false") && present))
      values

-- An operator among several: `case a, b, c:`.
abbrev pub one_of : Bytes → List Bytes → Bool
one_of operator names = any (eqb operator) names

abbrev pub arn_names : List Bytes
arn_names = op_arn_equals ∷ op_arn_like ∷ []

abbrev pub date_names : List Bytes
date_names =
    op_date_equals ∷ op_date_less_than ∷ op_date_less_than_equals ∷ op_date_greater_than
    ∷ op_date_greater_than_equals ∷ []

abbrev pub numeric_names : List Bytes
numeric_names =
    op_numeric_equals ∷ op_numeric_less_than ∷ op_numeric_less_than_equals ∷ op_numeric_greater_than
    ∷ op_numeric_greater_than_equals ∷ []

-- The `switch` of `conditionHolds`.
unfoldable pub switch_holds : Platform → Bytes → Bytes → List Bytes → ConditionKeys → Bool → Bool
switch_holds lib operator actual values keys fail_closed =
    if eqb operator op_string_equals
    then equals_any lib actual values keys fail_closed false
    else if eqb operator op_string_equals_ignore_case
    then equals_any lib actual values keys fail_closed true
    else if one_of operator arn_names
    then any (λ v. match_arn v actual keys fail_closed) values
    else if eqb operator op_bool
    then any (λ v. equal_fold lib v actual) values
    else if eqb operator op_string_like
    then any (λ v. match_pattern v actual keys fail_closed) values
    else if eqb operator op_ip_address
    then ip_in_any lib actual values fail_closed
    else if one_of operator date_names
    then date_holds_any lib operator actual values fail_closed
    else if one_of operator numeric_names
    then numeric_holds_any operator actual values fail_closed
    else false

-- `conditionHolds` calls itself on the positive form of a negated operator; the fuel bounds how deep.
unfoldable pub condition_loop :
    ℕ → Platform → Bytes → Bytes → List Bytes → ConditionKeys → Bool → Bool
condition_loop zero lib operator actual values keys fail_closed = false
condition_loop (suc fuel) lib operator actual values keys fail_closed =
    elim (negated_operators operator) [
      | some positive ↦ not (condition_loop fuel lib positive actual values keys (not fail_closed))
      | none ↦ switch_holds lib operator actual values keys fail_closed
    ]

unfoldable pub condition_holds : Platform → Bytes → Bytes → List Bytes → ConditionKeys → Bool → Bool
condition_holds lib operator actual values keys fail_closed =
    condition_loop 2 lib operator actual values keys fail_closed

-- One round of the inner loop of `conditionsHold`: false where the source returns false.
unfoldable pub entry_holds :
    Platform → ConditionKeys → Bool → Bytes → Bool → Bytes × List Bytes → Bool
entry_holds lib keys fail_closed base if_exists (key, values) =
    if eqb base op_null then null_holds lib (is_some (keys key)) values else elim (keys key) [
      | none ↦ is_some (negated_operators base) || if_exists
      | some actual ↦ condition_holds lib base actual values keys fail_closed
    ]

-- One round of the outer loop.
unfoldable pub block_holds :
    Platform → ConditionKeys → Bool → Bytes × List (Bytes × List Bytes) → Bool
block_holds lib keys fail_closed (op, by_key) =
    let (base, if_exists) = base_operator op in
    all (entry_holds lib keys fail_closed base if_exists) by_key

unfoldable pub conditions_hold : Platform → Condition → ConditionKeys → Bool → Bool
conditions_hold lib condition keys fail_closed = all (block_holds lib keys fail_closed) condition
