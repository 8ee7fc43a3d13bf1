-- ===== src/IamPolicy/Dates/Samples.antt =====
-- pkg/iampolicy/dates.go: a request at noon.
use bluebottle.Prelude.{
  ◌≡◌, refl, arith, false, ◌&&◌, none, some, [], Bytes, codes, eqb, if◌then◌else◌,
}
use bluebottle.Prelude.Int.{ℤ, pos}
use bluebottle.Strings.{Platform}
use bluebottle.IamPolicy.Variables.{ConditionKeys}
use bluebottle.IamPolicy.Dates.{set_request_time}
use bluebottle.IamPolicy.Dates.Clock.{date_at, IsClock, set_request_time-date_at}

abbrev noon_text : Bytes
noon_text = codes "2026-01-02T12:00:00Z"

-- Only noon is a time.
abbrev noon_platform : Platform
noon_platform = record {
  wide_lower = λ s. s;
  wide_fold = λ s t. false;
  parse_addr = λ s. none;
  parse_prefix = λ s. none;
  parse_time = λ layout s.
      if eqb layout (codes "2006-01-02T15:04:05Z07:00") && eqb s noon_text
      then some (pos 1767355200000000000)
      else none;
}

abbrev format_noon : Bytes → ℤ → Bytes
format_noon layout t = if eqb layout (codes "2006-01-02T15:04:05Z") then noon_text else []

abbrev no_keys : ConditionKeys
no_keys key = none

-- Seven nanoseconds after noon.
abbrev now : ℤ
now = pos 1767355200000000007

noon-IsClock : IsClock noon_platform format_noon now
noon-IsClock = record { form = refl; month = refl; day = refl; minute = refl; second = refl }

set_request_time-date_at_example :
    (date_at noon_platform (set_request_time format_noon now no_keys) (codes "aws:CurrentTime")
      ≡ some (pos 1767355200000000000))
    × (date_at noon_platform (set_request_time format_noon now no_keys) (codes "aws:EpochTime")
        ≡ some (pos 1767355200000000000))
    × (set_request_time format_noon now no_keys (codes "aws:username") ≡ none)
set_request_time-date_at_example =
    set_request_time-date_at noon_platform format_noon now no_keys (codes "aws:username")
      (omega arith) (omega arith) noon-IsClock refl refl
