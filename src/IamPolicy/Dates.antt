-- ===== src/IamPolicy/Dates.antt =====
-- pkg/iampolicy/dates.go: dates as instants, in nanoseconds from the Unix epoch.
pub mod Clock
mod Samples
use bluebottle.Prelude.{
  suc, ◌*◌, ◌/◌, Bool, false, ◌||◌, not, Option, none, some, List, [], ◌∷◌, Bytes, codes, ◌==◌,
  if◌then◌else◌, any, eqb,
}
use bluebottle.Prelude.Int.{ℤ, pos, negsuc, negate, ltb_ℤ}
use bluebottle.Strings.{Platform, has_byte}
use bluebottle.IamPolicy.Variables.{ConditionKeys}
use bluebottle.IamPolicy.Comparison.{Comparison, compare_ℤ, is_same, is_less, is_greater}
use bluebottle.Strings.Decimal.{all_digits, parse_int, format_int}
use bluebottle.IamPolicy.Operators.{
  key_current_time, key_epoch_time, op_date_equals, op_date_less_than, op_date_less_than_equals,
  op_date_greater_than, op_date_greater_than_equals,
}

-- `dateLayouts`; the last is `time.RFC3339`.
abbrev pub date_layouts : List Bytes
date_layouts =
    codes "2006-01"
    ∷ codes "2006-01-02"
    ∷ codes "2006-01-02T15:04Z07:00"
    ∷ codes "2006-01-02T15:04:05Z07:00"
    ∷ []

abbrev pub min_epoch_seconds : ℤ
min_epoch_seconds = negate (pos 62135596800)

abbrev pub max_epoch_seconds : ℤ
max_epoch_seconds = pos 253402300799

-- `time.Unix(secs, 0)`
abbrev pub unix_instant : ℤ → ℤ
unix_instant (pos n) = pos (n * 1000000000)
unix_instant (negsuc n) = negate (pos (suc n * 1000000000))

-- `strings.TrimPrefix(s, "-")`
abbrev trim_minus : Bytes → Bytes
trim_minus [] = []
trim_minus (c ∷ s) = if c == b'-' then s else c ∷ s

-- The loop over the layouts: the first that reads the text.
unfoldable pub parse_layouts : Platform → List Bytes → Bytes → Option ℤ
parse_layouts lib [] s = none
parse_layouts lib (layout ∷ layouts) s = elim (lib.parse_time layout s) [
  | some t ↦ some t
  | none ↦ parse_layouts lib layouts s
]

unfoldable pub parse_date : Platform → Bytes → Option ℤ
unfolding all_digits parse_int parse_layouts
parse_date lib s =
    if all_digits (trim_minus s)
    then elim (parse_int 64 s) [
      | none ↦ none
      | some secs ↦
          if ltb_ℤ secs min_epoch_seconds || ltb_ℤ max_epoch_seconds secs
          then none
          else some (unix_instant secs)
    ]
    else if has_byte s b','
    then none
    else parse_layouts lib date_layouts s

unfoldable pub date_compares : Bytes → Comparison → Bool
date_compares operator cmp =
    if eqb operator op_date_equals
    then is_same cmp
    else if eqb operator op_date_less_than
    then is_less cmp
    else if eqb operator op_date_less_than_equals
    then not (is_greater cmp)
    else if eqb operator op_date_greater_than
    then is_greater cmp
    else if eqb operator op_date_greater_than_equals
    then not (is_less cmp)
    else false

-- One round of `dateHoldsAny`.
abbrev date_holds : Platform → Bytes → ℤ → Bytes → Bool
date_holds lib operator at v = elim (parse_date lib v) [
  | none ↦ false
  | some want ↦ date_compares operator (compare_ℤ at want)
]

unfoldable pub date_holds_any : Platform → Bytes → Bytes → List Bytes → Bool → Bool
unfolding parse_date date_compares
date_holds_any lib operator actual values fail_closed = elim (parse_date lib actual) [
  | none ↦ fail_closed
  | some at ↦ any (date_holds lib operator at) values
]

abbrev pub current_time_layout : Bytes
current_time_layout = codes "2006-01-02T15:04:05Z"

-- `Time.Unix`: the whole seconds, rounded down.
abbrev pub unix_seconds : ℤ → ℤ
unix_seconds (pos n) = pos (n / 1000000000)
unix_seconds (negsuc n) = negsuc (n / 1000000000)

-- Formatting in UTC is a parameter.
unfoldable pub set_request_time : (Bytes → ℤ → Bytes) → ℤ → ConditionKeys → ConditionKeys
unfolding format_int
set_request_time format_time now keys = λ key.
    if eqb key key_epoch_time
    then some (format_int (unix_seconds now))
    else if eqb key key_current_time
    then some (format_time current_time_layout now)
    else keys key
