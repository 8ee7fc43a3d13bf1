-- ===== src/IamPolicy/Patterns/Meaning.antt =====
-- `matchPattern` of pkg/iampolicy/match.go against the pieces of its pattern.
use bluebottle.Prelude.{
  ◌≡◌, ◌↔◌, refl, Bool, true, false, Option, none, some, [], Bytes, append-nil, ap, ◌∙◌, inl, inr,
  Bool-cases, is_some,
}
use bluebottle.Strings.{cut_open}
use bluebottle.IamPolicy.Glob.Element.{Elements, elements, glob, glob_iff, Matches}
use bluebottle.IamPolicy.Glob.Correct.{match_glob-glob}
use bluebottle.IamPolicy.Glob.Wildcard.{match_wildcard-glob}
use bluebottle.IamPolicy.Variables.{ConditionKeys, escapes_in_text, escapes_in_value}
use bluebottle.IamPolicy.Variables.Template.{Pieces, Template, plain, broken, more, render, finish}
use bluebottle.IamPolicy.Variables.Checks.{expand_variables-render, expand_variables-literal}
use bluebottle.IamPolicy.Variables.Escaping.{meaning, elements_of, elements_of-render}
use bluebottle.IamPolicy.Patterns.{match_expanded, match_pattern}

-- The answer for a meaning: `fail_closed` where there is none.
abbrev pub judge : Bool → Option Elements → Bytes → Bool
judge fail_closed none value = fail_closed
judge fail_closed (some es) value = glob es value

judge-finish :
    (r : Option Bytes) (pattern value : Bytes) (fail_closed : Bool)
    → match_expanded (finish [] r) pattern value fail_closed
      ≡ judge fail_closed (elements_of r) value
unfolding match_expanded
judge-finish none pattern value fail_closed = refl
judge-finish (some r) pattern value fail_closed = match_glob-glob r value true

at_plain :
    (pattern value : Bytes) (ps : Pieces) (keys : ConditionKeys) (fail_closed : Bool)
    → Template pattern ps
    → is_some (cut_open pattern) ≡ false
    → glob (elements false pattern) value ≡ judge fail_closed (meaning keys ps) value
unfolding is_some
at_plain pattern value ps keys fail_closed (plain e) h = rw append-nil
at_plain pattern value ps keys fail_closed (broken e e') h = cc (rw e at h)
at_plain pattern value ps keys fail_closed (more e e' t) h = cc (rw e at h)

-- `matchPattern` judges by the pieces of the pattern: an unresolvable reference takes `failClosed`,
-- the text of the pattern keeps its wildcards, and a substituted value matches only itself.
pub match_pattern-meaning :
    (pattern value : Bytes) (ps : Pieces) (keys : ConditionKeys) (fail_closed : Bool)
    → Template pattern ps
    → match_pattern pattern value keys fail_closed ≡ judge fail_closed (meaning keys ps) value
unfolding match_pattern
match_pattern-meaning pattern value ps keys fail_closed t =
    elim (Bool-cases (is_some (cut_open pattern))) [
      | inl e ↦ rw (expand_variables-render pattern ps keys true t e) (
          judge-finish (render keys escapes_in_text escapes_in_value ps) pattern value fail_closed
          ∙ ap (λ m. judge fail_closed m value) (elements_of-render keys ps))
      | inr e ↦ rw (expand_variables-literal pattern keys true e) (
          unfold match_expanded in
          match_wildcard-glob pattern value ∙ at_plain pattern value ps keys fail_closed t e)
    ]

-- With every reference resolved, `matchPattern` returns true exactly on the values that match the
-- texts of the pattern, wildcards among them, and between them the bytes of the substituted values.
pub match_pattern_iff :
    (pattern value : Bytes) (ps : Pieces) (keys : ConditionKeys) (fail_closed : Bool)
    (es : Elements)
    → Template pattern ps
    → meaning keys ps ≡ some es
    → (match_pattern pattern value keys fail_closed ≡ true) ↔ Matches es value
match_pattern_iff pattern value ps keys fail_closed es t m =
    rw (match_pattern-meaning pattern value ps keys fail_closed t, m) (glob_iff es value)
