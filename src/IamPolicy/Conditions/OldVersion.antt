-- ===== src/IamPolicy/Conditions/OldVersion.antt =====
-- pkg/iampolicy/variables.go, `withLiteralVariables`: rewritten resource patterns and condition values
-- of documents older than policy variables.
use bluebottle.Prelude.{
  ◌≡◌, refl, Bool, false, List, [], ◌∷◌, Bytes, if◌then◌else◌, eqb, is_some, ap, sym, ◌∙◌,
  Bool-cases, inl, inr, map, any,
}
use bluebottle.Strings.{Platform, equal_fold, cut_open}
use bluebottle.IamPolicy.Glob.{match_wildcard}
use bluebottle.IamPolicy.Glob.Wildcard.{match_wildcard-glob}
use bluebottle.IamPolicy.Variables.{ConditionKeys, expand_variables, replace_open}
use bluebottle.IamPolicy.Variables.Checks.{expand_variables-render, expand_variables-literal}
use bluebottle.IamPolicy.Variables.Literal.{
  rewritten_pieces, Template-rewritten, meaning-rewritten, render-rewritten, replace_open-plain,
}
use bluebottle.IamPolicy.Patterns.{match_pattern, matches_any_resource}
use bluebottle.IamPolicy.Patterns.Meaning.{judge, match_pattern-meaning}
use bluebottle.IamPolicy.Conditions.{expanded_equals, equals_any}

match_pattern-replace_open :
    (pattern value : Bytes) (keys : ConditionKeys) (fail_closed : Bool)
    → match_pattern (replace_open pattern) value keys fail_closed ≡ match_wildcard pattern value
match_pattern-replace_open pattern value keys fail_closed =
    match_pattern-meaning (replace_open pattern) value (rewritten_pieces pattern) keys fail_closed
      (Template-rewritten pattern)
    ∙ ap (λ m. judge fail_closed m value) (meaning-rewritten keys pattern)
    ∙ sym (match_wildcard-glob pattern value)

-- The resource patterns of a rewritten document match as plain wildcard patterns do, `${` being text,
-- for every request and whatever `failClosed` is.
pub matches_any_resource-replace_open :
    (patterns : List Bytes) (resource : Bytes) (keys : ConditionKeys) (fail_closed : Bool)
    → matches_any_resource (map replace_open patterns) resource keys fail_closed
      ≡ any (λ p. match_wildcard p resource) patterns
unfolding matches_any_resource
matches_any_resource-replace_open [] resource keys fail_closed = refl
matches_any_resource-replace_open (p ∷ patterns) resource keys fail_closed = rw (
  match_pattern-replace_open p resource keys fail_closed,
  matches_any_resource-replace_open patterns resource keys fail_closed,
)

expanded_equals-replace_open :
    (lib : Platform) (v actual : Bytes) (keys : ConditionKeys) (fail_closed fold : Bool)
    → expanded_equals lib (expand_variables (replace_open v) keys false) actual fail_closed fold
      ≡ (if fold then equal_fold lib v actual else eqb v actual)
expanded_equals-replace_open lib v actual keys fail_closed fold =
    elim (Bool-cases (is_some (cut_open (replace_open v)))) [
      | inl e ↦
          rw
            (
              expand_variables-render (replace_open v) (rewritten_pieces v) keys false
                  (Template-rewritten v) e,
              render-rewritten keys v,
            )
            (unfold expanded_equals in refl)
      | inr e ↦
          rw (expand_variables-literal (replace_open v) keys false e, replace_open-plain v e)
            (unfold expanded_equals in refl)
    ]

-- The values of a rewritten string condition are compared as they are spelled, `${` being text, for
-- every request and whatever `failClosed` is.
pub equals_any-replace_open :
    (lib : Platform) (actual : Bytes) (values : List Bytes) (keys : ConditionKeys)
    (fail_closed fold : Bool)
    → equals_any lib actual (map replace_open values) keys fail_closed fold
      ≡ any (λ v. if fold then equal_fold lib v actual else eqb v actual) values
unfolding equals_any
equals_any-replace_open lib actual [] keys fail_closed fold = refl
equals_any-replace_open lib actual (v ∷ values) keys fail_closed fold = rw (
  expanded_equals-replace_open lib v actual keys fail_closed fold,
  equals_any-replace_open lib actual values keys fail_closed fold,
)
