-- ===== src/Otelsetup/Startup/Samples.antt =====
-- pkg/otelsetup/otelsetup.go: a start whose last exporter cannot be made.
use bluebottle.Prelude.{
  ◌≡◌, refl, true, false, ℕ, none, some, [], ◌∷◌, codes, eqb, if◌then◌else◌, err,
}
use bluebottle.Prelude.Int.{pos}
use bluebottle.Strings.{Platform}
use bluebottle.Otelsetup.Handlers.{Slog, Process}
use bluebottle.Otelsetup.Startup.{tracer, meter, logger, World, init, without_runtime_metrics}
use bluebottle.Otelsetup.Startup.Unwinding.{idle}

abbrev plain_platform : Platform
plain_platform = record {
  wide_lower = λ s. s;
  wide_fold = λ s t. false;
  parse_addr = λ s. none;
  parse_prefix = λ s. none;
  parse_time = λ layout s. none;
}

abbrev silent : Slog ℕ
silent = record {
  json_handler = λ writer level. writer;
  bridge = λ service lp. lp;
  sink_enabled = λ now s ctx l. true;
  sink_handle = λ s ctx r. none;
  sink_with_attrs = λ attrs s. s;
  sink_with_group = λ name s. s;
}

-- The meter provider cannot be stopped cleanly.
abbrev no_logs : World
no_logs = record {
  getenv =
      λ key. if eqb key (codes "OTEL_EXPORTER_OTLP_ENDPOINT") then codes "collector:4317" else [];
  build_info = none;
  new_resource = λ attrs. (none, true);
  trace_exporter = none;
  metric_exporter = none;
  log_exporter = some (codes "refused");
  stop = λ p. elim p [ tracer ↦ none | meter ↦ some (codes "late") | logger ↦ none ];
  logger_provider = 7;
}

abbrev fresh_process : Process ℕ
fresh_process = record { level = pos 0; conf = none; provider = none; default_logger = none }

unwound :
    init plain_platform silent no_logs
      (codes "predastore")
      (without_runtime_metrics ∷ [])
      (idle false fresh_process)
    ≡ (
      record {
        propagator = true;
        providers = tracer ∷ meter ∷ [];
        stopped = tracer ∷ meter ∷ [];
        logs = fresh_process;
      },
      err (codes "refused" ∷ codes "late" ∷ []),
    )
unfolding init
unwound = refl
