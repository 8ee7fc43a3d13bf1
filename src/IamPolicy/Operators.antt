-- ===== src/IamPolicy/Operators.antt =====
-- pkg/iampolicy/conditions.go: condition keys and operators, and which pairs the evaluator enforces.
use bluebottle.Prelude.{
  Bool, true, false, ◌&&◌, not, Option, none, some, List, [], ◌∷◌, ◌++◌, Bytes, codes, eqb,
  if◌then◌else◌, any, is_some,
}
use bluebottle.Strings.{cut_suffix}
use bluebottle.IamPolicy.Variables.{key_username, key_principal_account, key_user_id}

abbrev pub key_source_ip : Bytes
key_source_ip = codes "aws:SourceIp"

abbrev pub key_s3_prefix : Bytes
key_s3_prefix = codes "s3:prefix"

abbrev pub key_s3_max_keys : Bytes
key_s3_max_keys = codes "s3:max-keys"

abbrev pub key_secure_transport : Bytes
key_secure_transport = codes "aws:SecureTransport"

abbrev pub key_principal_type : Bytes
key_principal_type = codes "aws:PrincipalType"

abbrev pub key_passed_to_service : Bytes
key_passed_to_service = codes "iam:PassedToService"

abbrev pub key_current_time : Bytes
key_current_time = codes "aws:CurrentTime"

abbrev pub key_epoch_time : Bytes
key_epoch_time = codes "aws:EpochTime"

abbrev pub op_string_equals : Bytes
op_string_equals = codes "StringEquals"

abbrev pub op_string_not_equals : Bytes
op_string_not_equals = codes "StringNotEquals"

abbrev pub op_string_equals_ignore_case : Bytes
op_string_equals_ignore_case = codes "StringEqualsIgnoreCase"

abbrev pub op_string_not_equals_ignore_case : Bytes
op_string_not_equals_ignore_case = codes "StringNotEqualsIgnoreCase"

abbrev pub op_string_like : Bytes
op_string_like = codes "StringLike"

abbrev pub op_string_not_like : Bytes
op_string_not_like = codes "StringNotLike"

abbrev pub op_ip_address : Bytes
op_ip_address = codes "IpAddress"

abbrev pub op_not_ip_address : Bytes
op_not_ip_address = codes "NotIpAddress"

abbrev pub op_bool : Bytes
op_bool = codes "Bool"

abbrev pub op_arn_equals : Bytes
op_arn_equals = codes "ArnEquals"

abbrev pub op_arn_like : Bytes
op_arn_like = codes "ArnLike"

abbrev pub op_arn_not_equals : Bytes
op_arn_not_equals = codes "ArnNotEquals"

abbrev pub op_arn_not_like : Bytes
op_arn_not_like = codes "ArnNotLike"

abbrev pub op_null : Bytes
op_null = codes "Null"

abbrev pub op_date_equals : Bytes
op_date_equals = codes "DateEquals"

abbrev pub op_date_not_equals : Bytes
op_date_not_equals = codes "DateNotEquals"

abbrev pub op_date_less_than : Bytes
op_date_less_than = codes "DateLessThan"

abbrev pub op_date_less_than_equals : Bytes
op_date_less_than_equals = codes "DateLessThanEquals"

abbrev pub op_date_greater_than : Bytes
op_date_greater_than = codes "DateGreaterThan"

abbrev pub op_date_greater_than_equals : Bytes
op_date_greater_than_equals = codes "DateGreaterThanEquals"

abbrev pub op_numeric_equals : Bytes
op_numeric_equals = codes "NumericEquals"

abbrev pub op_numeric_not_equals : Bytes
op_numeric_not_equals = codes "NumericNotEquals"

abbrev pub op_numeric_less_than : Bytes
op_numeric_less_than = codes "NumericLessThan"

abbrev pub op_numeric_less_than_equals : Bytes
op_numeric_less_than_equals = codes "NumericLessThanEquals"

abbrev pub op_numeric_greater_than : Bytes
op_numeric_greater_than = codes "NumericGreaterThan"

abbrev pub op_numeric_greater_than_equals : Bytes
op_numeric_greater_than_equals = codes "NumericGreaterThanEquals"

abbrev pub if_exists_suffix : Bytes
if_exists_suffix = codes "IfExists"

-- The first value that stands beside a key equal to `k`.
abbrev pub find_key {ℓ} : {V : Type ℓ} → Bytes → List (Bytes × V) → Option V
find_key k [] = none
find_key k ((j, v) ∷ m) = let rest = find_key k m in if eqb k j then some v else rest

abbrev pub negated_table : List (Bytes × Bytes)
negated_table =
    (op_string_not_equals, op_string_equals)
    ∷ (op_string_not_equals_ignore_case, op_string_equals_ignore_case)
    ∷ (op_string_not_like, op_string_like)
    ∷ (op_not_ip_address, op_ip_address)
    ∷ (op_arn_not_equals, op_arn_equals)
    ∷ (op_arn_not_like, op_arn_like)
    ∷ (op_date_not_equals, op_date_equals)
    ∷ (op_numeric_not_equals, op_numeric_equals)
    ∷ []

-- `negatedOperators`: the positive form of a negated operator.
unfoldable pub negated_operators : Bytes → Option Bytes
negated_operators operator = find_key operator negated_table

abbrev string_equals_ops : List Bytes
string_equals_ops =
    op_string_equals ∷ op_string_not_equals ∷ op_string_equals_ignore_case
    ∷ op_string_not_equals_ignore_case ∷ []

abbrev string_like_ops : List Bytes
string_like_ops = op_string_like ∷ op_string_not_like ∷ []

abbrev date_ops : List Bytes
date_ops =
    op_date_equals ∷ op_date_not_equals ∷ op_date_less_than ∷ op_date_less_than_equals
    ∷ op_date_greater_than ∷ op_date_greater_than_equals ∷ []

abbrev numeric_ops : List Bytes
numeric_ops =
    op_numeric_equals ∷ op_numeric_not_equals ∷ op_numeric_less_than ∷ op_numeric_less_than_equals
    ∷ op_numeric_greater_than ∷ op_numeric_greater_than_equals ∷ []

abbrev supported_table : List (Bytes × List Bytes)
supported_table =
    (key_source_ip, op_ip_address ∷ op_not_ip_address ∷ [])
    ∷ (key_s3_prefix, string_equals_ops ++ string_like_ops)
    ∷ (key_s3_max_keys, numeric_ops)
    ∷ (key_secure_transport, op_bool ∷ [])
    ∷ (key_username, string_equals_ops)
    ∷ (key_principal_account, string_equals_ops)
    ∷ (key_user_id, string_equals_ops ++ string_like_ops)
    ∷ (key_principal_type, string_equals_ops ++ string_like_ops)
    ∷ (key_passed_to_service, string_equals_ops ++ string_like_ops)
    ∷ (key_current_time, date_ops)
    ∷ (key_epoch_time, date_ops ++ numeric_ops)
    ∷ []

-- `supportedConditions`: the operators that a registered key supports.
unfoldable pub supported_conditions : Bytes → Option (List Bytes)
supported_conditions key = find_key key supported_table

-- `BaseOperator`: the operator without the suffix, and whether it was there.
unfoldable pub base_operator : Bytes → Bytes × Bool
unfolding cut_suffix
base_operator operator = elim (cut_suffix operator if_exists_suffix) [
  | none ↦ (operator, false)
  | some base ↦ (base, true)
]

unfoldable pub supported_condition : Bytes → Bytes → Bool
unfolding base_operator supported_conditions is_some
supported_condition operator key =
    let (base, if_exists) = base_operator operator in
    if eqb base op_null
    then is_some (supported_conditions key) && not if_exists
    else elim (supported_conditions key) [ none ↦ false | some ops ↦ any (eqb base) ops ]
