-- ===== src/IamPolicy/Documents.antt =====
-- pkg/iampolicy/types.go: policy documents and statements; variables.go: the rewriting of statements of
-- documents that predate policy variables.
use bluebottle.Prelude.{Bool, ◌||◌, List, map, Bytes, codes, if◌then◌else◌, any, is_some}
use bluebottle.Strings.{cut_open}
use bluebottle.IamPolicy.Variables.{replace_open}
use bluebottle.IamPolicy.Conditions.{Condition}

abbrev pub effect_allow : Bytes
effect_allow = codes "Allow"

abbrev pub effect_deny : Bytes
effect_deny = codes "Deny"

abbrev pub version_2012 : Bytes
version_2012 = codes "2012-10-17"

-- `principal` is the raw JSON of the field, empty where the document has none.
pub record Statement : Type 0 where
  pub sid : Bytes
  pub effect : Bytes
  pub action : List Bytes
  pub resource : List Bytes
  pub condition : Condition
  pub not_action : List Bytes
  pub not_resource : List Bytes
  pub principal : Bytes

pub record PolicyDocument : Type 0 where
  pub version : Bytes
  pub statement : List Statement

-- `containsVariablePrefix`
abbrev pub contains_variable_prefix : List Bytes → Bool
contains_variable_prefix values = any (λ v. is_some (cut_open v)) values

unfoldable pub has_variable_prefix : Statement → Bool
unfolding cut_open is_some
has_variable_prefix s =
    (contains_variable_prefix s.resource || contains_variable_prefix s.not_resource)
    || any (λ (op, by_key). any (λ (key, values). contains_variable_prefix values) by_key)
        s.condition

unfoldable pub literal_condition : Condition → Condition
unfolding replace_open
literal_condition =
    map (λ (op, by_key). (op, map (λ (key, values). (key, map replace_open values)) by_key))

unfoldable pub with_literal_variables : Statement → Statement
unfolding literal_condition replace_open
with_literal_variables s = record s {
  resource = map replace_open s.resource;
  not_resource = map replace_open s.not_resource;
  condition = literal_condition s.condition;
}

-- The source clones the slice before the first change, so the caller's statements stay.
unfoldable pub literal_variable_statements : List Statement → List Statement
unfolding has_variable_prefix with_literal_variables
literal_variable_statements =
    map (λ s. if has_variable_prefix s then with_literal_variables s else s)
