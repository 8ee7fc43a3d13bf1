-- ===== src/Otelsetup/Startup/Unwinding.antt =====
-- pkg/otelsetup/otelsetup.go: what `Init` leaves behind.
use bluebottle.Prelude.{◌≡◌, Bool, true, not, [], is_empty, if◌then◌else◌, err, ok}
use bluebottle.Otelsetup.Handlers.{Slog, Process, install_provider}
use bluebottle.Otelsetup.Startup.{Globals, World, Started}

-- The globals of a process in which `Init` has not run.
abbrev pub idle : {S : Type 0} → Bool → Process S → Globals S
idle propagator logs = record { propagator = propagator; providers = []; stopped = []; logs = logs }

-- A start that fails leaves only providers that have been stopped, and the logs as they were. One that
-- succeeds has stopped none, and returns to stop exactly the providers that are global, in this order;
-- if export is enabled the logs have been given the new provider, and otherwise nothing was started.
abbrev pub IsSettled : {S : Type 0} → Slog S → World → Process S → Bool → Started S → Type 0
IsSettled lib w logs enabled (g, err es) =
    (g.stopped ≡ g.providers) × (g.logs ≡ logs) × (enabled ≡ true)
IsSettled lib w logs enabled (g, ok installed) =
    (g.providers ≡ installed)
    × (g.stopped ≡ [])
    × (g.logs ≡ (if enabled then install_provider lib w.logger_provider logs else logs))
    × (is_empty installed ≡ not enabled)
