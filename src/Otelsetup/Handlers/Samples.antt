-- ===== src/Otelsetup/Handlers/Samples.antt =====
-- pkg/otelsetup/slog.go: two handlers of other packages that are numbers.
use bluebottle.Prelude.{◌≡◌, not, ℕ, ◌+◌, ◌==◌, none, some, List, [], ◌∷◌, codes, if◌then◌else◌}
use bluebottle.Prelude.Int.{pos, negsuc, ltb_ℤ}
use bluebottle.Otelsetup.Handlers.{
  fixed, Context, LogRecord, LoggerConfig, Slog, handle, with_attrs, with_group, Derivation,
  new_handler,
}
use bluebottle.Otelsetup.Handlers.Delivery.{derived, handle-derived}
use bluebottle.Otelsetup.Handlers.Defaults.{
  Call, set_default, set, init_logs, calls, start, current, calls-current,
}

-- The JSON handlers are even, and the bridges odd; one group is added to a name.
abbrev tally : Slog ℕ
tally = record {
  json_handler = λ writer level. 0;
  bridge = λ service lp. 1;
  sink_enabled = λ now s ctx l. not (ltb_ℤ l (pos 0));
  sink_handle = λ s ctx r. if s == 3 then some (codes "full") else none;
  sink_with_attrs = λ attrs s. s;
  sink_with_group = λ name s. s + 2;
}

abbrev conf : LoggerConfig
conf = record { service_name = codes "predastore"; writer = 1 }

abbrev ctx : Context
ctx = record { span = some (codes "4b", codes "00f0"); values = [] }

abbrev warning : LogRecord
warning = record { level = pos 4; message = codes "slow"; attrs = [] }

abbrev steps : List Derivation
steps = with_attrs [] ∷ with_group (codes "s3") ∷ []

handle-derived_example :
    handle tally
      (pos 0)
      (derived tally steps (new_handler tally conf (fixed (pos 0)) (some 7)))
      ctx
      warning
    ≡ (
      (
        2,
        record {
          level = pos 4;
          message = codes "slow";
          attrs = (codes "trace_id", codes "4b") ∷ (codes "span_id", codes "00f0") ∷ [];
        },
      )
          ∷ (3, warning)
          ∷ [],
      codes "full" ∷ [],
    )
handle-derived_example = handle-derived tally (pos 0) conf (fixed (pos 0)) 7 steps ctx warning

-- The provider comes after the configuration, and the level last.
abbrev order : List Call
order = set_default conf (pos 0) ∷ init_logs 7 ∷ set (negsuc 3) ∷ []

calls-current_example :
    ((calls tally order start).default_logger ≡ current tally (some conf) (some 7))
    × ((calls tally order start).level ≡ negsuc 3)
calls-current_example = calls-current tally order
