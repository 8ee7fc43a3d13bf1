-- ===== src/IamPolicy/Conditions/Narrowing.antt =====
-- pkg/iampolicy/conditions.go: conditions at a door that cannot resolve a policy variable, against a
-- door that can.
use bluebottle.Prelude.{
  zero, suc, ◌≡◌, refl, Bool, true, false, ◌||◌, not, Option, none, some, List, [], ◌∷◌, Bytes,
  if◌then◌else◌, any, all, eqb, is_some, ap, ℕ,
}
use bluebottle.Prelude.Bounds.{
  Bounded, Bounded-const, Bounded-default, Bounded-not, Bounded-if, Bounded-any, Bounded-and,
  Bounded-at,
}
use bluebottle.Strings.{Platform, equal_fold}
use bluebottle.IamPolicy.Variables.{
  ConditionKeys, Expansion, resolved, literal, unresolvable, expand_variables,
}
use bluebottle.IamPolicy.Variables.Extension.{Extends}
use bluebottle.IamPolicy.Operators.{
  negated_operators, base_operator, op_null, op_string_equals, op_string_equals_ignore_case,
  op_bool, op_string_like, op_ip_address,
}
use bluebottle.IamPolicy.Patterns.{match_pattern, match_arn, is_unresolvable}
use bluebottle.IamPolicy.Patterns.Narrowing.{
  Bounded-expanded, match_pattern-Bounded, match_arn-Bounded,
}
use bluebottle.IamPolicy.Numbers.{numeric_holds_any, parse_number}
use bluebottle.IamPolicy.Dates.{date_holds_any, parse_date}
use bluebottle.IamPolicy.Addresses.{ip_in_any}
use bluebottle.IamPolicy.Conditions.{
  Condition, one_of, arn_names, date_names, numeric_names, expanded_equals, equals_any, null_holds,
  switch_holds, condition_loop, condition_holds, entry_holds, block_holds, conditions_hold,
}

module _ (keys keys' : ConditionKeys) where
  -- A value that cannot be read takes the default, and any other test is of the values alone.
  abbrev or_default {ℓ} : {A : Type ℓ} → (A → Bool) → Option A → Bool → Bool
  or_default f o d = elim o [ none ↦ d | some a ↦ f a ]

  Bounded-or_default {ℓ} :
      {A : Type ℓ} (f : A → Bool) (o : Option A) → Bounded keys keys' (λ k d. or_default f o d)
  Bounded-or_default f none = Bounded-default keys keys'
  Bounded-or_default f (some a) = Bounded-const keys keys' (f a)

  numeric-Bounded :
      (operator actual : Bytes) (values : List Bytes)
      → Bounded keys keys' (λ k d. numeric_holds_any operator actual values d)
  unfolding numeric_holds_any
  numeric-Bounded operator actual values = Bounded-or_default _ (parse_number actual)

  date-Bounded :
      (lib : Platform) (operator actual : Bytes) (values : List Bytes)
      → Bounded keys keys' (λ k d. date_holds_any lib operator actual values d)
  unfolding date_holds_any
  date-Bounded lib operator actual values = Bounded-or_default _ (parse_date lib actual)

  ip-Bounded :
      (lib : Platform) (actual : Bytes) (values : List Bytes)
      → Bounded keys keys' (λ k d. ip_in_any lib actual values d)
  unfolding ip_in_any
  ip-Bounded lib actual values = Bounded-or_default _ (lib.parse_addr actual)

module _ (keys keys' : ConditionKeys) (ext : Extends keys keys') (lib : Platform) where
  equals_any-Bounded :
      (actual : Bytes) (values : List Bytes) (fold : Bool)
      → Bounded keys keys' (λ k d. equals_any lib actual values k d fold)
  unfolding equals_any expanded_equals
  equals_any-Bounded actual values fold =
      Bounded-any keys keys'
        (λ v k d. expanded_equals lib (expand_variables v k false) actual d fold) values
        (λ v.
          Bounded-expanded keys keys' ext v false (λ x d. expanded_equals lib x actual d fold)
            split)
    where
      split :
          (x : Bytes × Expansion) (d : Bool)
          → expanded_equals lib x actual d fold
            ≡ (if is_unresolvable x.1 then d else expanded_equals lib x actual true fold)
      split (t, resolved) d = refl
      split (t, literal) d = refl
      split (t, unresolvable) d = refl

  switch_holds-Bounded :
      (operator actual : Bytes) (values : List Bytes)
      → Bounded keys keys' (λ k d. switch_holds lib operator actual values k d)
  unfolding switch_holds
  switch_holds-Bounded operator actual values =
      let K : Type 0 = ConditionKeys → Bool → Bool in
      let fold : K = λ k d. equals_any lib actual values k d true in
      let arn : K = λ k d. any (λ v. match_arn v actual k d) values in
      let bool : K = λ k d. any (λ v. equal_fold lib v actual) values in
      let like : K = λ k d. any (λ v. match_pattern v actual k d) values in
      let ip : K = λ k d. ip_in_any lib actual values d in
      let date : K = λ k d. date_holds_any lib operator actual values d in
      let numeric : K = λ k d. numeric_holds_any operator actual values d in
      let after_date : K = λ k d. if one_of operator numeric_names then numeric k d else false in
      let after_ip : K = λ k d. if one_of operator date_names then date k d else after_date k d in
      let after_like : K = λ k d. if eqb operator op_ip_address then ip k d else after_ip k d in
      let after_bool : K =
        λ k d. if eqb operator op_string_like then like k d else after_like k d in
      let after_arn : K = λ k d. if eqb operator op_bool then bool k d else after_bool k d in
      let after_fold : K = λ k d. if one_of operator arn_names then arn k d else after_arn k d in
      let after_equals : K =
        λ k d. if eqb operator op_string_equals_ignore_case then fold k d else after_fold k d in
      branch (eqb operator op_string_equals) (λ k d. equals_any lib actual values k d false)
        after_equals (equals_any-Bounded actual values false)
        (branch (eqb operator op_string_equals_ignore_case) fold after_fold
          (equals_any-Bounded actual values true)
          (branch (one_of operator arn_names) arn after_arn
            (Bounded-any keys keys' (λ v k d. match_arn v actual k d) values
              (λ v. match_arn-Bounded keys keys' ext v actual))
            (branch (eqb operator op_bool) bool after_bool (Bounded-const keys keys' _) (
              branch (eqb operator op_string_like) like after_like
                (Bounded-any keys keys' (λ v k d. match_pattern v actual k d) values
                  (λ v. match_pattern-Bounded keys keys' ext v actual))
                (branch (eqb operator op_ip_address) ip after_ip
                  (ip-Bounded keys keys' lib actual values)
                  (branch (one_of operator date_names) date after_date
                    (date-Bounded keys keys' lib operator actual values)
                    (branch (one_of operator numeric_names) numeric (λ k d. false)
                      (numeric-Bounded keys keys' operator actual values)
                      (Bounded-const keys keys' false))))))))
    where
      branch :
          (t : Bool) (f g : ConditionKeys → Bool → Bool)
          → Bounded keys keys' f
          → Bounded keys keys' g
          → Bounded keys keys' (λ k d. if t then f k d else g k d)
      branch = Bounded-if keys keys'

  condition_loop-Bounded :
      (fuel : ℕ) (operator actual : Bytes) (values : List Bytes)
      → Bounded keys keys' (λ k d. condition_loop fuel lib operator actual values k d)
  unfolding condition_loop
  condition_loop-Bounded zero operator actual values = Bounded-const keys keys' false
  condition_loop-Bounded (suc fuel) operator actual values =
      by_form (condition_loop-Bounded fuel) (negated_operators operator)
    where
      by_form :
          ((op act : Bytes) (vs : List Bytes)
            → Bounded keys keys' (λ k d. condition_loop fuel lib op act vs k d))
          → (o : Option Bytes)
          → Bounded keys keys' (λ k d. elim o [
            | some positive ↦ not (condition_loop fuel lib positive actual values k (not d))
            | none ↦ switch_holds lib operator actual values k d
          ])
      by_form ih none = switch_holds-Bounded operator actual values
      by_form ih (some positive) =
          Bounded-not keys keys' (λ k d. condition_loop fuel lib positive actual values k d)
            (ih positive actual values)

  -- One operator on one key. If it holds with `failClosed` false at a door, it holds at every door
  -- that carries the same keys and more; and what holds there holds with `failClosed` true here.
  pub condition_holds-Bounded :
      (operator actual : Bytes) (values : List Bytes)
      → Bounded keys keys' (λ k d. condition_holds lib operator actual values k d)
  unfolding condition_holds
  condition_holds-Bounded operator actual values = condition_loop-Bounded 2 operator actual values

  -- The two requests have the same value, or none, for every key that a condition names.
  abbrev pub AgreeEntries : List (Bytes × List Bytes) → Type 0
  AgreeEntries [] = Unit
  AgreeEntries ((key, values) ∷ by_key) = (keys' key ≡ keys key) × AgreeEntries by_key

  abbrev pub AgreeOn : Condition → Type 0
  AgreeOn [] = Unit
  AgreeOn ((op, by_key) ∷ condition) = AgreeEntries by_key × AgreeOn condition

  -- An entry, from the request's value for its key on.
  abbrev entry_given : Bytes → Bool → List Bytes → Option Bytes → ConditionKeys → Bool → Bool
  entry_given base if_exists values o k d =
      if eqb base op_null then null_holds lib (is_some o) values else elim o [
        | none ↦ is_some (negated_operators base) || if_exists
        | some actual ↦ condition_holds lib base actual values k d
      ]

  entry_given-Bounded :
      (base : Bytes) (if_exists : Bool) (values : List Bytes) (o : Option Bytes)
      → Bounded keys keys' (entry_given base if_exists values o)
  entry_given-Bounded base if_exists values none =
      Bounded-const keys keys' (entry_given base if_exists values none keys true)
  entry_given-Bounded base if_exists values (some actual) =
      Bounded-if keys keys' (eqb base op_null)
        (λ k d. null_holds lib (is_some (some actual)) values)
        (λ k d. condition_holds lib base actual values k d) (Bounded-const keys keys' _)
        (condition_holds-Bounded base actual values)

  entry_holds-Bounded :
      (base : Bytes) (if_exists : Bool) (key : Bytes) (values : List Bytes)
      → keys' key ≡ keys key
      → Bounded keys keys' (λ k d. entry_holds lib k d base if_exists (key, values))
  unfolding entry_holds
  entry_holds-Bounded base if_exists key values e =
      Bounded-at keys keys' (λ k d. entry_holds lib k d base if_exists (key, values))
        (entry_given base if_exists values (keys key)) (λ d. refl)
        (λ d. ap (λ o. entry_given base if_exists values o keys' d) e)
        (entry_given-Bounded base if_exists values (keys key))

  entries-Bounded :
      (base : Bytes) (if_exists : Bool) (by_key : List (Bytes × List Bytes))
      → AgreeEntries by_key
      → Bounded keys keys' (λ k d. all (entry_holds lib k d base if_exists) by_key)
  entries-Bounded base if_exists [] h = Bounded-const keys keys' true
  entries-Bounded base if_exists ((key, values) ∷ by_key) h =
      Bounded-and keys keys' (λ k d. entry_holds lib k d base if_exists (key, values))
        (λ k d. all (entry_holds lib k d base if_exists) by_key)
        (entry_holds-Bounded base if_exists key values h.0)
        (entries-Bounded base if_exists by_key h.1)

  pub conditions_hold-Bounded :
      (condition : Condition)
      → AgreeOn condition
      → Bounded keys keys' (λ k d. conditions_hold lib condition k d)
  unfolding conditions_hold block_holds
  conditions_hold-Bounded [] h = Bounded-const keys keys' true
  conditions_hold-Bounded ((op, by_key) ∷ condition) h =
      Bounded-and keys keys'
        (λ k d. all (entry_holds lib k d (base_operator op).0 (base_operator op).1) by_key)
        (λ k d. conditions_hold lib condition k d)
        (entries-Bounded (base_operator op).0 (base_operator op).1 by_key h.0)
        (conditions_hold-Bounded condition h.1)
