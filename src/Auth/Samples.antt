-- ===== src/Auth/Samples.antt =====
-- ARNs as in pkg/auth, read and resolved.
use bluebottle.Prelude.{◌≡◌, refl, ◌↔◌, true, Bytes, codes, err, ok, String}
use bluebottle.Strings.{cut_byte, cut_prefix, split_n}
use bluebottle.Auth.{
  ArnError, ArnLookup, last_segment, parse_path, parse_resource, parse_parts, parse_iam_arn,
  resolve_iam_arn, resolve_parsed, check_stored, has_aws_account, is_aws_managed_policy_arn,
  parse_policy_arn, role, policy,
}
use bluebottle.Auth.Shape.{IsArnOf, parse_iam_arn_iff}
use bluebottle.Auth.Resolution.{resolve_iam_arn_iff}

abbrev account : Bytes
account = codes "123456789012"

abbrev name : Bytes
name = codes "admin"

abbrev arn : Bytes
arn = codes "arn:aws:iam::123456789012:role/ops/admin"

abbrev managed_arn : Bytes
managed_arn = codes "arn:aws:iam::aws:policy/ReadOnly"

-- A store that has this one role.
abbrev one_role : ArnLookup String
one_role a n = ok arn

parsed : parse_iam_arn arn role ≡ ok (account, name)
unfolding parse_iam_arn parse_parts parse_resource parse_path last_segment cut_prefix split_n
    cut_byte
parsed = refl

other_kind : parse_iam_arn arn policy ≡ err ArnError.wrong_resource
unfolding parse_iam_arn parse_parts parse_resource parse_path last_segment cut_prefix split_n
    cut_byte
other_kind = refl

without_path : parse_iam_arn (codes "arn:aws:iam:::role/admin") role ≡ err ArnError.empty_account
unfolding parse_iam_arn parse_parts parse_resource parse_path last_segment cut_prefix split_n
    cut_byte
without_path = refl

managed : is_aws_managed_policy_arn managed_arn ≡ true
unfolding is_aws_managed_policy_arn has_aws_account parse_policy_arn parse_iam_arn parse_parts
    parse_resource parse_path last_segment cut_prefix split_n cut_byte
managed = refl

resolved_role : resolve_iam_arn arn role one_role ≡ ok (account, name)
unfolding resolve_iam_arn resolve_parsed check_stored parse_iam_arn parse_parts parse_resource
    parse_path last_segment cut_prefix split_n cut_byte
resolved_role = refl

parse_iam_arn_iff_example :
    (parse_iam_arn arn role ≡ ok (account, name)) ↔ IsArnOf role arn account name
parse_iam_arn_iff_example = parse_iam_arn_iff arn role account name

resolve_iam_arn_iff_example :
    (resolve_iam_arn arn role one_role ≡ ok (account, name))
    ↔ (IsArnOf role arn account name × (one_role account name ≡ ok arn))
resolve_iam_arn_iff_example = resolve_iam_arn_iff one_role arn role account name
