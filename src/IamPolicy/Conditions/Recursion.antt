-- ===== src/IamPolicy/Conditions/Recursion.antt =====
-- pkg/iampolicy/conditions.go: the recursion of `conditionHolds` and the fuel of its model.
use bluebottle.Prelude.{
  ℕ, suc, sym, ◌∙◌, ◌≡◌, refl, Bool, true, not, Option, none, some, List, [], ◌∷◌, Bytes, all, eqb,
  is_some, Bool-cases, inl, inr, &&_iff, subst, ap, Option-cases,
}
use bluebottle.Strings.{Platform}
use bluebottle.IamPolicy.Variables.{ConditionKeys}
use bluebottle.IamPolicy.Operators.{negated_operators, negated_table, find_key}
use bluebottle.IamPolicy.Conditions.{switch_holds, condition_loop, condition_holds}

some_eq : (w v : Bytes) → some w ≡ some v → w ≡ v
some_eq w v e = cc

find_key-all :
    (f : Bytes → Bool) (m : List (Bytes × Bytes)) (k v : Bytes)
    → all (λ (j, w). f w) m ≡ true
    → find_key k m ≡ some v
    → f v ≡ true
find_key-all f [] k v h e = cc
find_key-all f ((j, w) ∷ m) k v h e = elim (Bool-cases (eqb k j)) [
  | inl y ↦ subst (λ x. f x ≡ true) (some_eq w v (rw y at e)) ((&&_iff _ _).0 h).0
  | inr n ↦ find_key-all f m k v (((&&_iff _ _).0 h).1) (rw n at e)
]

is_positive : Bytes → Bool
is_positive operator = not (is_some (negated_operators operator))

table_positive : all (λ (j, w). is_positive w) negated_table ≡ true
unfolding is_positive negated_operators is_some
table_positive = refl

-- The positive form of a negated operator is not negated itself.
pub negated_operators-positive :
    (operator positive : Bytes)
    → negated_operators operator ≡ some positive
    → negated_operators positive ≡ none
negated_operators-positive operator positive h = none_of (negated_operators positive) (
    unfold is_positive in
    find_key-all is_positive negated_table operator positive table_positive
      (unfold negated_operators in h))
  where
    none_of : (o : Option Bytes) → not (is_some o) ≡ true → o ≡ none
    none_of none e = refl
    none_of (some x) e = unfold is_some in cc

loop_at_none :
    (fuel : ℕ) (lib : Platform) (operator actual : Bytes) (values : List Bytes)
    (keys : ConditionKeys) (fail_closed : Bool)
    → negated_operators operator ≡ none
    → condition_loop (suc fuel) lib operator actual values keys fail_closed
      ≡ switch_holds lib operator actual values keys fail_closed
unfolding condition_loop
loop_at_none fuel lib operator actual values keys fail_closed e = rw (e, condition_loop)

loop_at_some :
    (fuel : ℕ) (lib : Platform) (operator positive actual : Bytes) (values : List Bytes)
    (keys : ConditionKeys) (fail_closed : Bool)
    → negated_operators operator ≡ some positive
    → condition_loop (suc fuel) lib operator actual values keys fail_closed
      ≡ not (condition_loop fuel lib positive actual values keys (not fail_closed))
unfolding condition_loop
loop_at_some fuel lib operator positive actual values keys fail_closed e = rw (e, condition_loop)

-- `conditionHolds` is the negation of itself at the positive form, with `failClosed` inverted, for a
-- negated operator, and its `switch` for any other: the model's bound on the recursion is never met.
pub condition_holds-recursion :
    (lib : Platform) (operator actual : Bytes) (values : List Bytes) (keys : ConditionKeys)
    (fail_closed : Bool)
    → condition_holds lib operator actual values keys fail_closed
      ≡ elim (negated_operators operator) as (λ o. Bool) [
        | some positive ↦ not (condition_holds lib positive actual values keys (not fail_closed))
        | none ↦ switch_holds lib operator actual values keys fail_closed
      ]
unfolding condition_holds
condition_holds-recursion lib operator actual values keys fail_closed =
    elim (Option-cases (negated_operators operator)) [
      | inl e ↦ rw e (loop_at_none 1 lib operator actual values keys fail_closed e)
      | inr (p, e) ↦
          let positive = negated_operators-positive operator p e in
          rw e (
            loop_at_some 1 lib operator p actual values keys fail_closed e
            ∙ ap not (
                loop_at_none 0 lib p actual values keys (not fail_closed) positive
                ∙ sym (loop_at_none 1 lib p actual values keys (not fail_closed) positive)))
    ]
