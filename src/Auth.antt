-- ===== src/Auth.antt =====
-- pkg/auth/arn.go: reading IAM ARNs, and resolving one against the ARN that a store holds. An error is
-- kept as the value that callers test; its message is not modelled.
use bluebottle.Prelude.{
  ℕ, ◌≡◌, Bool, true, false, ◌&&◌, ◌||◌, not, Option, none, some, List, [], ◌∷◌, ◌++◌, Bytes, codes,
  eqb, is_empty, if◌then◌else◌, ◌==◌, Result, err, ok,
}
use bluebottle.Strings.{cut_prefix, split_n}
pub mod Shape
pub mod Resolution
mod Samples

-- The errors of `parseIAMARN`, in the order of its tests.
pub data ArnError : Type 0 where
  not_iam_arn : ArnError
  wrong_resource : ArnError
  empty_name : ArnError
  empty_account : ArnError

-- `s[strings.LastIndex(s, "/")+1:]`, where `segment` is what follows the last slash so far.
unfoldable pub last_segment : Bytes → Bytes → Bytes
last_segment segment [] = segment
last_segment segment (c ∷ s) = last_segment (if c == b'/' then s else segment) s

unfoldable pub parse_path : Bytes → Bytes → Result ArnError (Bytes × Bytes)
parse_path account path_and_name =
    let name = last_segment path_and_name path_and_name in
    if is_empty name
    then err empty_name
    else if is_empty account
    then err empty_account
    else ok (account, name)

unfoldable pub parse_resource : Bytes → Option Bytes → Result ArnError (Bytes × Bytes)
parse_resource account none = err wrong_resource
parse_resource account (some path_and_name) = parse_path account path_and_name

unfoldable pub parse_parts : Bytes → List Bytes → Result ArnError (Bytes × Bytes)
parse_parts resource (p0 ∷ p1 ∷ p2 ∷ p3 ∷ p4 ∷ p5 ∷ []) =
    if not (eqb p0 (codes "arn"))
      || not (eqb p1 (codes "aws"))
      || not (eqb p2 (codes "iam"))
      || not (eqb p3 [])
    then err not_iam_arn
    else parse_resource p4 (cut_prefix p5 (resource ++ codes "/"))
parse_parts resource parts = err not_iam_arn

unfoldable pub parse_iam_arn : Bytes → Bytes → Result ArnError (Bytes × Bytes)
parse_iam_arn arn resource = parse_parts resource (split_n 6 arn)

abbrev pub role : Bytes
role = codes "role"

abbrev pub policy : Bytes
policy = codes "policy"

abbrev pub instance_profile : Bytes
instance_profile = codes "instance-profile"

unfoldable pub parse_role_arn : Bytes → Result ArnError (Bytes × Bytes)
parse_role_arn arn = parse_iam_arn arn role

unfoldable pub parse_policy_arn : Bytes → Result ArnError (Bytes × Bytes)
parse_policy_arn arn = parse_iam_arn arn policy

-- The error values of the resolvers, `ErrInvalid*` with what it wraps and `Err*Mismatch`, and an error
-- of the caller's store, which is passed on.
pub data ResolveError (E : Type 0) : Type 0 where
  invalid : Bytes → ArnError → ResolveError E
  lookup_failed : E → ResolveError E
  mismatch : Bytes → ResolveError E

abbrev pub ArnLookup : Type 0 → Type 0
ArnLookup E = Bytes → Bytes → Result E Bytes

unfoldable pub check_stored :
    {E : Type 0}
    → Bytes
    → Bytes
    → Bytes × Bytes
    → Result E Bytes
    → Result (ResolveError E) (Bytes × Bytes)
check_stored arn resource named (err e) = err (lookup_failed e)
check_stored arn resource named (ok stored) =
    if not (eqb stored arn) then err (mismatch resource) else ok named

unfoldable pub resolve_parsed :
    {E : Type 0}
    → Bytes
    → Bytes
    → ArnLookup E
    → Result ArnError (Bytes × Bytes)
    → Result (ResolveError E) (Bytes × Bytes)
unfolding check_stored
resolve_parsed arn resource lookup (err e) = err (invalid resource e)
resolve_parsed arn resource lookup (ok (account, name)) =
    check_stored arn resource (account, name) (lookup account name)

-- The two error values that a resolver passes are determined by its resource.
unfoldable pub resolve_iam_arn :
    {E : Type 0} → Bytes → Bytes → ArnLookup E → Result (ResolveError E) (Bytes × Bytes)
unfolding parse_iam_arn resolve_parsed
resolve_iam_arn arn resource lookup =
    resolve_parsed arn resource lookup (parse_iam_arn arn resource)

unfoldable pub resolve_role_arn :
    {E : Type 0} → Bytes → ArnLookup E → Result (ResolveError E) (Bytes × Bytes)
resolve_role_arn arn lookup = resolve_iam_arn arn role lookup

unfoldable pub resolve_policy_arn :
    {E : Type 0} → Bytes → ArnLookup E → Result (ResolveError E) (Bytes × Bytes)
resolve_policy_arn arn lookup = resolve_iam_arn arn policy lookup

unfoldable pub resolve_instance_profile_arn :
    {E : Type 0} → Bytes → ArnLookup E → Result (ResolveError E) (Bytes × Bytes)
resolve_instance_profile_arn arn lookup = resolve_iam_arn arn instance_profile lookup

unfoldable pub has_aws_account : Result ArnError (Bytes × Bytes) → Bool
has_aws_account (err e) = false
has_aws_account (ok (account, name)) = eqb account (codes "aws")

unfoldable pub is_aws_managed_policy_arn : Bytes → Bool
is_aws_managed_policy_arn arn = has_aws_account (parse_policy_arn arn)
