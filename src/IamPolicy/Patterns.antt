-- ===== src/IamPolicy/Patterns.antt =====
-- pkg/iampolicy/match.go: matching lists of patterns, patterns with policy variables, and ARNs.
pub mod Meaning
pub mod Narrowing
use bluebottle.Prelude.{
  ℕ, zero, suc, ◌≡◌, refl, Bool, true, false, ◌&&◌, ◌||◌, not, Option, none, some, List, [], ◌∷◌,
  ◌++◌, Bytes, codes, ◌==◌, ltb, if◌then◌else◌, length, any,
}
use bluebottle.Strings.{Platform, to_lower, cut_byte, split_n}
use bluebottle.IamPolicy.Glob.{match_glob, match_wildcard}
use bluebottle.IamPolicy.Variables.{
  ConditionKeys, Expansion, resolved, literal, unresolvable, expand_variables,
}

unfoldable pub matches_any : Platform → List Bytes → Bytes → Bool → Bool
unfolding to_lower match_wildcard
matches_any lib patterns value case_insensitive =
    let value' = if case_insensitive then to_lower lib value else value in
    any (λ p. match_wildcard (if case_insensitive then to_lower lib p else p) value') patterns

-- The `switch` of `matchPattern`.
unfoldable pub match_expanded : Bytes × Expansion → Bytes → Bytes → Bool → Bool
match_expanded (expanded, literal) pattern value fail_closed = match_wildcard pattern value
match_expanded (expanded, unresolvable) pattern value fail_closed = fail_closed
match_expanded (expanded, resolved) pattern value fail_closed = match_glob expanded value true

unfoldable pub match_pattern : Bytes → Bytes → ConditionKeys → Bool → Bool
unfolding match_expanded expand_variables match_wildcard match_glob
match_pattern pattern value keys fail_closed =
    match_expanded (expand_variables pattern keys true) pattern value fail_closed

unfoldable pub matches_any_resource : List Bytes → Bytes → ConditionKeys → Bool → Bool
unfolding match_pattern
matches_any_resource patterns resource keys fail_closed =
    any (λ p. match_pattern p resource keys fail_closed) patterns

abbrev pub arn_components : ℕ
arn_components = 6

abbrev pub cons_part : Bytes → Option (List Bytes) → Option (List Bytes)
cons_part p none = none
cons_part p (some ps) = some (p ∷ ps)

-- The loop of `SplitARN`. The number counts the parts that are still to be cut off, `part` is
-- `s[start:i]`, and the text is `s[i:]`.
unfoldable pub split_loop : ℕ → Bytes → Bytes → Bool → Option (List Bytes)
split_loop zero s part in_variable = some ((part ++ s) ∷ [])
split_loop (suc n) [] part in_variable = none
split_loop (suc n) (c ∷ []) part in_variable =
    let cut = cons_part part (split_loop n [] [] in_variable) in
    if not in_variable && c == b':' then cut else none
split_loop (suc n) (c ∷ d ∷ s) part in_variable =
    let opened = split_loop (suc n) s (part ++ c ∷ d ∷ []) true in
    let closed = split_loop (suc n) (d ∷ s) (part ++ c ∷ []) false in
    let cut = cons_part part (split_loop n (d ∷ s) [] in_variable) in
    let onward = split_loop (suc n) (d ∷ s) (part ++ c ∷ []) in_variable in
    if c == b'$' && d == b'{'
    then opened
    else if in_variable && c == b'}'
    then closed
    else if not in_variable && c == b':'
    then cut
    else onward

-- `arnComponents - 1` parts are cut off, the last is what remains.
unfoldable pub split_arn : Bytes → Option (List Bytes)
unfolding split_loop
split_arn s = split_loop 5 s [] false

-- The last loop of `matchARN`; both lists have six parts.
unfoldable pub match_parts : List Bytes → List Bytes → ConditionKeys → Bool → Bool
match_parts [] values keys fail_closed = true
match_parts (p ∷ patterns) [] keys fail_closed = false
match_parts (p ∷ patterns) (v ∷ values) keys fail_closed =
    match_pattern p v keys fail_closed && match_parts patterns values keys fail_closed

abbrev pub is_unresolvable : Expansion → Bool
is_unresolvable unresolvable = true
is_unresolvable resolved = false
is_unresolvable literal = false

unfoldable pub match_arn : Bytes → Bytes → ConditionKeys → Bool → Bool
unfolding expand_variables split_arn split_n match_parts match_pattern cut_byte
match_arn pattern value keys fail_closed =
    if is_unresolvable (expand_variables pattern keys true).1
    then fail_closed
    else elim (split_arn pattern) [
      | none ↦ false
      | some pattern_parts ↦
          let value_parts = split_n arn_components value in
          if ltb (length value_parts) arn_components
          then fail_closed
          else match_parts pattern_parts value_parts keys fail_closed
    ]
