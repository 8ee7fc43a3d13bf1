-- ===== src/IamPolicy/Samples/Evaluation.antt =====
-- Runs of the evaluator of pkg/iampolicy on small documents, and the theorems of its modules at them.
use mathlib.Core.List.{Permᴰ}
use bluebottle.Prelude.{
  is_some, ◌≡◌, refl, Bool, true, false, not, none, some, List, [], ◌∷◌, Bytes, codes, any, map,
}
use bluebottle.Prelude.Bounds.{Bounded}
use bluebottle.IamPolicy.Glob.{match_wildcard}
use bluebottle.IamPolicy.Variables.{ConditionKeys, replace_open}
use bluebottle.IamPolicy.Variables.Extension.{Extends}
use bluebottle.IamPolicy.Patterns.{matches_any_resource}
use bluebottle.IamPolicy.Operators.{negated_operators, base_operator, supported_condition}
use bluebottle.IamPolicy.Conditions.{
  Condition, condition_holds, conditions_hold, block_holds, entry_holds, null_holds, condition_loop,
  switch_holds, equals_any,
}
use bluebottle.IamPolicy.Conditions.Narrowing.{condition_holds-Bounded}
use bluebottle.IamPolicy.Conditions.Recursion.{condition_holds-recursion}
use bluebottle.IamPolicy.Conditions.OldVersion.{matches_any_resource-replace_open}
use bluebottle.IamPolicy.Documents.{
  Statement, PolicyDocument, effect_allow, effect_deny, version_2012,
}
use bluebottle.IamPolicy.Evaluator.{
  Decision, deny, allow, evaluate_with_keys, eval_policies, eval_statements, effective_statements,
  matches, matches_given, matches_action, matches_resource, well_formed_actions,
  well_formed_resources, unenforceable, unsupported_block, unsupported_key,
}
use bluebottle.IamPolicy.Evaluator.Precedence.{
  all_statements, decision_of, evaluate_with_keys-decision_of,
}
use bluebottle.IamPolicy.Evaluator.Order.{entries, evaluate_with_keys-perm, matches-Reordered}
use bluebottle.IamPolicy.Evaluator.Narrowing.{evaluate_with_keys-narrows}
use bluebottle.IamPolicy.Samples.{plain_platform, no_keys, as_bob, home}

abbrev statement_of : Bytes → List Bytes → List Bytes → List Bytes → Condition → Statement
statement_of effect action resource not_resource condition = record {
  sid = [];
  effect = effect;
  action = action;
  resource = resource;
  condition = condition;
  not_action = [];
  not_resource = not_resource;
  principal = [];
}

-- No session type in the request.
abbrev no_type : Condition
no_type = (codes "Null", (codes "aws:PrincipalType", codes "true" ∷ []) ∷ []) ∷ []

abbrev read_home : Statement
read_home = statement_of effect_allow (codes "s3:*" ∷ []) (home ∷ []) [] []

abbrev read_public : Statement
read_public = statement_of effect_allow (codes "S3:Get*" ∷ []) (codes "pub/*" ∷ []) [] no_type

abbrev keep_others : Statement
keep_others = statement_of effect_deny (codes "s3:Delete*" ∷ []) [] (home ∷ []) []

abbrev document : PolicyDocument
document = record { version = version_2012; statement = read_home ∷ read_public ∷ keep_others ∷ [] }

abbrev old_document : PolicyDocument
old_document = record { version = codes "2008-10-17"; statement = read_home ∷ [] }

abbrev documents : List PolicyDocument
documents = document ∷ old_document ∷ []

-- A run of the evaluator; the line opens what it calls.
run : Bytes → Bytes → ConditionKeys → Decision
unfolding evaluate_with_keys eval_policies eval_statements effective_statements matches
    matches_given matches_action matches_resource well_formed_actions well_formed_resources
    unenforceable unsupported_block unsupported_key supported_condition conditions_hold block_holds
    entry_holds base_operator negated_operators null_holds condition_holds condition_loop
    switch_holds equals_any is_some
run action resource keys = evaluate_with_keys plain_platform action resource documents keys

get_public : run (codes "s3:GetObject") (codes "pub/x") no_keys ≡ allow
unfolding run
get_public = refl

get_home : run (codes "s3:GetObject") (codes "h/b*b/x") as_bob ≡ allow
unfolding run
get_home = refl

delete_other : run (codes "s3:DeleteObject") (codes "pub/x") as_bob ≡ deny
unfolding run
delete_other = refl

-- With no user name the Deny still holds, the Allow does not.
delete_unknown : run (codes "s3:DeleteObject") (codes "h/b*b/x") no_keys ≡ deny
unfolding run
delete_unknown = refl

-- In the older document `${` is text.
get_spelled : run (codes "s3:GetObject") (codes "h/${aws:username}/x") as_bob ≡ allow
unfolding run
get_spelled = refl

no_keys-Extends : Extends no_keys as_bob
no_keys-Extends name v h = cc

allowed_before :
    evaluate_with_keys plain_platform (codes "s3:GetObject") (codes "pub/x") documents no_keys
    ≡ allow
allowed_before = unfold run in get_public

evaluate_with_keys-narrows_example :
    evaluate_with_keys plain_platform (codes "s3:GetObject") (codes "pub/x") documents as_bob
    ≡ allow
evaluate_with_keys-narrows_example =
    evaluate_with_keys-narrows no_keys as_bob no_keys-Extends plain_platform (codes "s3:GetObject")
      (codes "pub/x") documents ((tt, (((refl, tt), tt), (tt, tt))), ((tt, tt), tt)) allowed_before

evaluate_with_keys-decision_of_example :
    evaluate_with_keys plain_platform (codes "s3:GetObject") (codes "pub/x") documents as_bob
    ≡ decision_of plain_platform
        (codes "s3:GetObject")
        (codes "pub/x")
        as_bob
        (all_statements documents)
evaluate_with_keys-decision_of_example =
    evaluate_with_keys-decision_of plain_platform (codes "s3:GetObject") (codes "pub/x") as_bob
      documents

swapped : Permᴰ documents (old_document ∷ document ∷ [])
swapped = Permᴰ.swap refl refl

evaluate_with_keys-perm_example :
    evaluate_with_keys plain_platform (codes "s3:GetObject") (codes "pub/x") documents as_bob
    ≡ evaluate_with_keys plain_platform
        (codes "s3:GetObject")
        (codes "pub/x")
        (old_document ∷ document ∷ [])
        as_bob
evaluate_with_keys-perm_example =
    evaluate_with_keys-perm plain_platform (codes "s3:GetObject") (codes "pub/x") as_bob swapped

abbrev two_keys : List (Bytes × List Bytes)
two_keys =
    (codes "aws:userid", codes "u" ∷ [])
    ∷ (codes "aws:username", codes "bob" ∷ codes "eve" ∷ [])
    ∷ []

abbrev two_keys_reordered : List (Bytes × List Bytes)
two_keys_reordered =
    (codes "aws:username", codes "bob" ∷ codes "eve" ∷ [])
    ∷ (codes "aws:userid", codes "u" ∷ [])
    ∷ []

abbrev named : Statement
named =
    statement_of effect_allow (codes "*" ∷ []) (codes "*" ∷ []) []
      ((codes "StringNotEquals", two_keys) ∷ no_type)

matches-Reordered_example :
    matches plain_platform named (codes "s3:GetObject") (codes "pub/x") as_bob
    ≡ matches plain_platform
        (record named { condition = (codes "StringNotEquals", two_keys_reordered) ∷ no_type })
        (codes "s3:GetObject")
        (codes "pub/x")
        as_bob
matches-Reordered_example =
    matches-Reordered plain_platform (codes "s3:GetObject") (codes "pub/x") as_bob named
      (entries (Permᴰ.swap refl refl))

condition_holds-Bounded_example : Bounded no_keys as_bob (λ k d.
    condition_holds plain_platform (codes "StringNotLike") (codes "h/bob/x") (home ∷ []) k d)
condition_holds-Bounded_example =
    condition_holds-Bounded no_keys as_bob no_keys-Extends plain_platform (codes "StringNotLike")
      (codes "h/bob/x") (home ∷ [])

condition_holds-recursion_example :
    condition_holds plain_platform (codes "StringNotLike") (codes "h/bob/x") (home ∷ []) as_bob true
    ≡ elim (negated_operators (codes "StringNotLike")) as (λ o. Bool) [
      | some positive ↦
          not (
            condition_holds plain_platform positive (codes "h/bob/x") (home ∷ []) as_bob (not true))
      | none ↦
          switch_holds plain_platform
            (codes "StringNotLike")
            (codes "h/bob/x")
            (home ∷ [])
            as_bob
            true
    ]
condition_holds-recursion_example =
    condition_holds-recursion plain_platform (codes "StringNotLike") (codes "h/bob/x") (home ∷ [])
      as_bob true

matches_any_resource-replace_open_example :
    matches_any_resource (map replace_open (home ∷ [])) (codes "h/${aws:username}x") as_bob false
    ≡ any (λ p. match_wildcard p (codes "h/${aws:username}x")) (home ∷ [])
matches_any_resource-replace_open_example =
    matches_any_resource-replace_open (home ∷ []) (codes "h/${aws:username}x") as_bob false
