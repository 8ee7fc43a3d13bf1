-- ===== src/IamPolicy/Variables.antt =====
-- pkg/iampolicy/variables.go: policy variables, their expansion, and the check of write paths.
--
-- An index `i` of the source is the text `s[i:]` that it leaves to read.
pub mod Template
pub mod Checks
pub mod Escaping
pub mod Literal
pub mod Extension
use bluebottle.Prelude.{
  ℕ, zero, suc, ◌≡◌, refl, Bool, true, false, ◌&&◌, ◌||◌, not, Option, none, some, List, [], ◌∷◌,
  ◌++◌, Bytes, codes, ◌==◌, if◌then◌else◌, length, any, eqb, is_some,
}
use bluebottle.Prelude.Sorting.{sort}
use bluebottle.Strings.Encoding.{leb_bytes}
use bluebottle.Strings.{cut_byte, cut_open, has_byte, contains_any}

-- The condition context keys of a request; an absent key is `none`.
abbrev pub ConditionKeys : Type 0
ConditionKeys = Bytes → Option Bytes

abbrev pub key_username : Bytes
key_username = codes "aws:username"

abbrev pub key_principal_account : Bytes
key_principal_account = codes "aws:PrincipalAccount"

abbrev pub key_user_id : Bytes
key_user_id = codes "aws:userid"

unfoldable pub substitutable : Bytes → Bool
substitutable name = eqb name key_username || eqb name key_principal_account || eqb name key_user_id

-- `literalVariables`: the escape forms `${*}`, `${?}` and `${$}`.
unfoldable pub literal_variables : Bytes → Option Bytes
literal_variables name =
    if eqb name (codes "*")
    then some (codes "*")
    else if eqb name (codes "?")
    then some (codes "?")
    else if eqb name (codes "$")
    then some (codes "$")
    else none

pub data VariableFault : Type 0 where
  variable_ok unknown_key unterminated : VariableFault

-- The loop of `UnresolvableVariable` over what is left of the text.
unfoldable pub fault_loop : ℕ → Bytes → Bytes × VariableFault
fault_loop zero s = ([], variable_ok)
fault_loop (suc fuel) s = elim (cut_open s) [
  | none ↦ ([], variable_ok)
  | some (_, rest) ↦ elim (cut_byte b'}' rest) [
    | none ↦ (rest, unterminated)
    | some (name, rest') ↦
        let more = fault_loop fuel rest' in
        if not (is_some (literal_variables name)) && not (substitutable name)
        then (name, unknown_key)
        else more
  ]
]

unfoldable pub unresolvable_variable : Bytes → Bytes × VariableFault
unfolding fault_loop cut_open cut_byte literal_variables substitutable is_some
unresolvable_variable s = fault_loop (suc (length s)) s

-- `SubstitutableKeys`, whose registry is `substitutable`; the names are in the order of `slices.Sorted`.
unfoldable pub substitutable_keys : List Bytes
unfolding leb_bytes
substitutable_keys = sort leb_bytes (key_username ∷ key_principal_account ∷ key_user_id ∷ [])

abbrev pub is_fault : VariableFault → Bool
is_fault variable_ok = false
is_fault unknown_key = true
is_fault unterminated = true

unfoldable pub unsupported_variable : Bytes → Bytes × Bool
unfolding unresolvable_variable
unsupported_variable s = let (key, fault) = unresolvable_variable s in (key, is_fault fault)

pub data Expansion : Type 0 where
  resolved literal unresolvable : Expansion

abbrev pub escapes_in_text : Bytes
escapes_in_text = b'\\' ∷ []

abbrev pub escapes_in_value : Bytes
escapes_in_value = b'\\' ∷ b'*' ∷ b'?' ∷ []

-- The loop of `writeEscaped`.
unfoldable pub escape_bytes : Bytes → Bytes → Bytes
escape_bytes [] chars = []
escape_bytes (c ∷ s) chars =
    let rest = escape_bytes s chars in if has_byte chars c then b'\\' ∷ c ∷ rest else c ∷ rest

-- What `writeEscaped` appends to the builder.
unfoldable pub write_escaped : Bytes → Bytes → Bytes
unfolding escape_bytes
write_escaped s chars = if not (contains_any s chars) then s else escape_bytes s chars

-- The value of one reference: an escape form, or a key that the request carries.
unfoldable pub reference : ConditionKeys → Bytes → Option Bytes
reference keys name = elim (literal_variables name) [
  | some value ↦ some value
  | none ↦ if not (substitutable name) then none else keys name
]

-- The loop of `expandVariables`; `out` is what the builder holds.
unfoldable pub expand_loop : ℕ → Bytes → ConditionKeys → Bytes → Bytes → Bytes → Bytes × Expansion
expand_loop zero s keys text_chars value_chars out = ([], unresolvable)
expand_loop (suc fuel) [] keys text_chars value_chars out = (out, resolved)
expand_loop (suc fuel) (c ∷ s) keys text_chars value_chars out = elim (cut_open (c ∷ s)) [
  | none ↦ (out ++ write_escaped (c ∷ s) text_chars, resolved)
  | some (text, rest) ↦ elim (cut_byte b'}' rest) [
    | none ↦ ([], unresolvable)
    | some (name, rest') ↦ elim (reference keys name) [
      | none ↦ ([], unresolvable)
      | some value ↦
          expand_loop fuel rest' keys text_chars value_chars
            ((out ++ write_escaped text text_chars) ++ write_escaped value value_chars)
    ]
  ]
]

unfoldable pub expand_variables : Bytes → ConditionKeys → Bool → Bytes × Expansion
unfolding expand_loop cut_open cut_byte reference literal_variables substitutable write_escaped
    is_some
expand_variables s keys escape_meta =
    if not (is_some (cut_open s))
    then (s, literal)
    else expand_loop (suc (length s)) s keys (if escape_meta then escapes_in_text else [])
        (if escape_meta then escapes_in_value else []) []

-- `literalReference`: how a `${` is written as literal text.
abbrev pub literal_reference : Bytes
literal_reference = codes "${$}{"

-- `strings.ReplaceAll(v, VariablePrefix, literalReference)`
unfoldable pub replace_open : Bytes → Bytes
replace_open [] = []
replace_open (c ∷ []) = c ∷ []
replace_open (c ∷ d ∷ s) =
    let rewritten = literal_reference ++ replace_open s in
    let kept = c ∷ replace_open (d ∷ s) in if c == b'$' && d == b'{' then rewritten else kept
