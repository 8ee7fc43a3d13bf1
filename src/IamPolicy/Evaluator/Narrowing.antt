-- ===== src/IamPolicy/Evaluator/Narrowing.antt =====
-- pkg/iampolicy/evaluator.go: statements and decisions at a door that lacks values of policy variables,
-- against a door that has them.
use bluebottle.Prelude.{
  ◌≡◌, refl, Bool, true, false, ◌&&◌, ◌||◌, not, List, [], ◌∷◌, ◌++◌, map, Bytes, if◌then◌else◌,
  any, is_empty, eqb, inl, inr, &&_iff, ||_iff, arith, is_some, sym, ◌∙◌,
}
use bluebottle.Prelude.Bounds.{Bounded, Bounded-const, Bounded-not, Bounded-if, Bounded-and}
use bluebottle.Strings.{Platform}
use bluebottle.IamPolicy.Variables.{ConditionKeys, replace_open}
use bluebottle.IamPolicy.Variables.Extension.{Extends}
use bluebottle.IamPolicy.Patterns.{matches_any_resource}
use bluebottle.IamPolicy.Patterns.Narrowing.{matches_any_resource-Bounded}
use bluebottle.IamPolicy.Conditions.{Condition, conditions_hold}
use bluebottle.IamPolicy.Conditions.Narrowing.{AgreeEntries, AgreeOn, conditions_hold-Bounded}
use bluebottle.IamPolicy.Documents.{
  Statement, PolicyDocument, effect_allow, version_2012, has_variable_prefix, literal_condition,
  with_literal_variables, literal_variable_statements,
}
use bluebottle.IamPolicy.Evaluator.{
  deny, allow, matches_action, matches_resource, well_formed_actions, well_formed_resources,
  unenforceable, matches_given, matches, effective_statements, evaluate_with_keys,
}
use bluebottle.IamPolicy.Evaluator.Precedence.{
  all_statements, grants, forbids, evaluate_with_keys-decision_of,
}

module _ (keys keys' : ConditionKeys) (ext : Extends keys keys') (lib : Platform) where
  matches_resource-Bounded :
      (s : Statement) (resource : Bytes)
      → Bounded keys keys' (λ k d. matches_resource s resource k d)
  unfolding matches_resource
  matches_resource-Bounded s resource =
      Bounded-if keys keys' (not (is_empty s.not_resource))
        (λ k d. not (matches_any_resource s.not_resource resource k (not d)))
        (λ k d. matches_any_resource s.resource resource k d)
        (Bounded-not keys keys' (λ k d. matches_any_resource s.not_resource resource k d)
          (matches_any_resource-Bounded keys keys' ext s.not_resource resource))
        (matches_any_resource-Bounded keys keys' ext s.resource resource)

  Bounded-or_left :
      (b : Bool) (f : ConditionKeys → Bool → Bool)
      → Bounded keys keys' f
      → Bounded keys keys' (λ k d. b || f k d)
  Bounded-or_left true f h = Bounded-const keys keys' true
  Bounded-or_left false f h = h

  matches_given-Bounded :
      (s : Statement) (action resource : Bytes) (found : Bool)
      → AgreeOn keys keys' ext lib s.condition
      → Bounded keys keys' (λ k d. matches_given lib s action resource k d found)
  unfolding matches_given
  matches_given-Bounded s action resource true h =
      Bounded-if keys keys' (eqb s.effect effect_allow) (λ k d. false)
        (λ k d.
          (not (well_formed_actions s) || matches_action lib s action)
          && (not (well_formed_resources s) || matches_resource s resource k d))
        (Bounded-const keys keys' false)
        (Bounded-and keys keys' (λ k d. not (well_formed_actions s) || matches_action lib s action)
          (λ k d. not (well_formed_resources s) || matches_resource s resource k d)
          (Bounded-const keys keys' _)
          (Bounded-or_left (not (well_formed_resources s)) (λ k d. matches_resource s resource k d)
            (matches_resource-Bounded s resource)))
  matches_given-Bounded s action resource false h =
      Bounded-and keys keys' (λ k d. matches_action lib s action && matches_resource s resource k d)
        (λ k d. conditions_hold lib s.condition k d)
        (Bounded-and keys keys' (λ k d. matches_action lib s action)
          (λ k d. matches_resource s resource k d) (Bounded-const keys keys' _)
          (matches_resource-Bounded s resource))
        (conditions_hold-Bounded keys keys' ext lib s.condition h)

  module _ (action resource : Bytes) where
    grants-narrows :
        (s : Statement)
        → AgreeOn keys keys' ext lib s.condition
        → grants lib action resource keys s ≡ true
        → grants lib action resource keys' s ≡ true
    unfolding matches
    grants-narrows s h g = by_effect (eqb s.effect effect_allow) g
      where
        by_effect :
            (b : Bool)
            → (matches_given lib s action resource keys (not b) (is_some (unenforceable s)) && b)
              ≡ true
            → (matches_given lib s action resource keys' (not b) (is_some (unenforceable s)) && b)
              ≡ true
        by_effect false k = cc ((&&_iff _ false).0 k).1
        by_effect true k =
            (&&_iff _ _).1
              ((matches_given-Bounded s action resource _ h false).0 ((&&_iff _ _).0 k).0, refl)

    forbids-widens :
        (s : Statement)
        → AgreeOn keys keys' ext lib s.condition
        → forbids lib action resource keys' s ≡ true
        → forbids lib action resource keys s ≡ true
    unfolding matches
    forbids-widens s h g = by_effect (eqb s.effect effect_allow) g
      where
        by_effect :
            (b : Bool)
            → (matches_given lib s action resource keys' (not b) (is_some (unenforceable s))
                && not b)
              ≡ true
            → (matches_given lib s action resource keys (not b) (is_some (unenforceable s))
                && not b)
              ≡ true
        by_effect true k = cc ((&&_iff _ false).0 k).1
        by_effect false k =
            (&&_iff _ _).1
              ((matches_given-Bounded s action resource _ h true).1 ((&&_iff _ _).0 k).0, refl)

  -- The two requests have the same value, or none, for every key that a condition of these names.
  abbrev pub AgreeStatements : List Statement → Type 0
  AgreeStatements [] = Unit
  AgreeStatements (s ∷ statements) =
      AgreeOn keys keys' ext lib s.condition × AgreeStatements statements

  -- Both sets of keys agree on every key that a condition of the documents names.
  abbrev pub AgreeDocuments : List PolicyDocument → Type 0
  AgreeDocuments [] = Unit
  AgreeDocuments (document ∷ policies) =
      AgreeStatements document.statement × AgreeDocuments policies

  AgreeOn-literal :
      (c : Condition)
      → AgreeOn keys keys' ext lib c
      → AgreeOn keys keys' ext lib (literal_condition c)
  unfolding literal_condition
  AgreeOn-literal [] h = tt
  AgreeOn-literal ((op, by_key) ∷ c) h = (same_keys by_key h.0, AgreeOn-literal c h.1)
    where
      same_keys :
          (es : List (Bytes × List Bytes))
          → AgreeEntries keys keys' ext lib es
          → AgreeEntries keys keys' ext lib
              (map (λ (key, values). (key, map replace_open values)) es)
      same_keys [] h = tt
      same_keys ((key, values) ∷ es) h = (h.0, same_keys es h.1)

  AgreeStatements-literal :
      (statements : List Statement)
      → AgreeStatements statements
      → AgreeStatements (literal_variable_statements statements)
  unfolding literal_variable_statements with_literal_variables
  AgreeStatements-literal [] h = tt
  AgreeStatements-literal (s ∷ statements) h =
      (either (has_variable_prefix s), AgreeStatements-literal statements h.1)
    where
      either :
          (b : Bool)
          → AgreeOn keys keys' ext lib (if b then with_literal_variables s else s).condition
      either true = AgreeOn-literal s.condition h.0
      either false = h.0

  AgreeStatements-append :
      (xs ys : List Statement)
      → AgreeStatements xs
      → AgreeStatements ys
      → AgreeStatements (xs ++ ys)
  AgreeStatements-append [] ys h k = k
  AgreeStatements-append (x ∷ xs) ys h k = (h.0, AgreeStatements-append xs ys h.1 k)

  AgreeStatements-effective :
      (document : PolicyDocument)
      → AgreeStatements document.statement
      → AgreeStatements (effective_statements document)
  unfolding effective_statements
  AgreeStatements-effective document h = either (eqb document.version version_2012)
    where
      either :
          (b : Bool)
          → AgreeStatements
              (if not b then literal_variable_statements document.statement else document.statement)
      either true = h
      either false = AgreeStatements-literal document.statement h

  AgreeStatements-all :
      (policies : List PolicyDocument)
      → AgreeDocuments policies
      → AgreeStatements (all_statements policies)
  AgreeStatements-all [] h = tt
  AgreeStatements-all (document ∷ policies) h =
      AgreeStatements-append (effective_statements document) (all_statements policies)
        (AgreeStatements-effective document h.0) (AgreeStatements-all policies h.1)

  any-narrows :
      (p q : Statement → Bool)
      → ((s : Statement) → AgreeOn keys keys' ext lib s.condition → p s ≡ true → q s ≡ true)
      → (statements : List Statement) → AgreeStatements statements
      → any p statements ≡ true
      → any q statements ≡ true
  any-narrows p q f [] h e = e
  any-narrows p q f (s ∷ statements) h e = elim ((||_iff (p s) (any p statements)).0 e) [
    | inl now ↦ (||_iff (q s) (any q statements)).1 (inl (f s h.0 now))
    | inr later ↦ (||_iff (q s) (any q statements)).1 (inr (any-narrows p q f statements h.1 later))
  ]

  -- Of two sets of condition keys let the second have every key of the first with its value, and both
  -- the same value, or both none, for every key that a condition of the documents names. Then what is
  -- allowed with the first is allowed with the second. So keys that stand only in policy variables, and
  -- that a door fails to supply, never grant access by being absent.
  pub evaluate_with_keys-narrows :
      (action resource : Bytes) (policies : List PolicyDocument)
      → AgreeDocuments policies
      → evaluate_with_keys lib action resource policies keys ≡ allow
      → evaluate_with_keys lib action resource policies keys' ≡ allow
  evaluate_with_keys-narrows action resource policies h e =
      evaluate_with_keys-decision_of lib action resource keys' policies
      ∙ allowed (any (forbids lib action resource keys) all)
          (any (grants lib action resource keys) all) (any (forbids lib action resource keys') all)
          (any (grants lib action resource keys') all)
          (any-narrows _ _ (forbids-widens action resource) all agree)
          (any-narrows _ _ (grants-narrows action resource) all agree)
          (sym (evaluate_with_keys-decision_of lib action resource keys policies) ∙ e)
    where
      all : List Statement
      all = all_statements policies

      agree : AgreeStatements all
      agree = AgreeStatements-all policies h

      allowed :
          (f g f' g' : Bool)
          → (f' ≡ true → f ≡ true)
          → (g ≡ true → g' ≡ true)
          → (if f then deny else if g then allow else deny) ≡ allow
          → (if f' then deny else if g' then allow else deny) ≡ allow
      allowed f g f' g' p q k = ground arith
