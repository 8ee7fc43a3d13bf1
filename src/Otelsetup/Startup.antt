-- ===== src/Otelsetup/Startup.antt =====
-- pkg/otelsetup/otelsetup.go: `Init`, the providers it makes global, and what it reads of the environment.
use bluebottle.Prelude.{
  ℕ, Bool, true, false, not, ◌&&◌, Option, none, some, List, [], ◌∷◌, ◌++◌, Bytes, codes, eqb, any,
  is_empty, leb, length, take, if◌then◌else◌, Result, err, ok,
}
use bluebottle.Strings.{Platform, equal_fold}
use bluebottle.Otelsetup.Handlers.{Slog, errors, Process, install_provider}
pub mod Unwinding
mod Samples

pub record InitConfig : Type 0 where
  pub tracing : Bool
  pub runtime_metrics : Bool
  pub env_fallbacks : List Bytes

pub data InitOption : Type 0 where
  without_tracing : InitOption
  without_runtime_metrics : InitOption
  with_environment_fallback : List Bytes → InitOption

abbrev pub apply_option : InitOption → InitConfig → InitConfig
apply_option without_tracing c = record c { tracing = false }
apply_option without_runtime_metrics c = record c { runtime_metrics = false }
apply_option (with_environment_fallback vars) c = record c {
  env_fallbacks = c.env_fallbacks ++ vars;
}

abbrev pub apply_options : List InitOption → InitConfig → InitConfig
apply_options [] c = c
apply_options (o ∷ opts) c = apply_options opts (apply_option o c)

abbrev pub endpoint_vars : List Bytes
endpoint_vars =
    codes "OTEL_EXPORTER_OTLP_ENDPOINT"
    ∷ codes "OTEL_EXPORTER_OTLP_TRACES_ENDPOINT"
    ∷ codes "OTEL_EXPORTER_OTLP_METRICS_ENDPOINT"
    ∷ codes "OTEL_EXPORTER_OTLP_LOGS_ENDPOINT"
    ∷ []

unfoldable pub export_enabled : Platform → (Bytes → Bytes) → Bool
unfolding equal_fold
export_enabled lib getenv =
    if equal_fold lib (getenv (codes "OTEL_SDK_DISABLED")) (codes "true")
    then false
    else any (λ key. not (is_empty (getenv key))) endpoint_vars

unfoldable pub first_set : (Bytes → Bytes) → List Bytes → Bytes
first_set getenv [] = []
first_set getenv (key ∷ keys) =
    let rest = first_set getenv keys in if not (is_empty (getenv key)) then getenv key else rest

unfoldable pub deployment_env : (Bytes → Bytes) → List Bytes → Bytes
unfolding first_set
deployment_env getenv fallbacks =
    let env = getenv (codes "MULGA_ENV") in
    if not (is_empty env) then env else first_set getenv fallbacks

unfoldable pub revision : List (Bytes × Bytes) → Bytes
revision [] = []
revision ((key, value) ∷ settings) =
    let rest = revision settings in
    if eqb key (codes "vcs.revision") && leb 12 (length value) then take 12 value else rest

-- From the version of the main module and the settings of the build, where there are these.
unfoldable pub build_version : Option (Bytes × List (Bytes × Bytes)) → Bytes
unfolding revision
build_version none = []
build_version (some (v, settings)) =
    if not (is_empty v) && not (eqb v (codes "(devel)")) then v else revision settings

abbrev pub when_set : Bytes → List (Bytes × Bytes) → List (Bytes × Bytes)
when_set v attrs = if not (is_empty v) then attrs else []

-- The attributes that `newResource` gives to `resource.New`.
unfoldable pub resource_attrs :
    (Bytes → Bytes)
    → Option (Bytes × List (Bytes × Bytes))
    → Bytes
    → List Bytes
    → List (Bytes × Bytes)
unfolding build_version deployment_env
resource_attrs getenv info service_name fallbacks =
    let v = build_version info in
    let env = deployment_env getenv fallbacks in
    let source = getenv (codes "MULGA_SOURCE") in
    (codes "service.name", service_name)
    ∷ (when_set v ((codes "service.version", v) ∷ [])
        ++ (when_set env ((codes "mulga.env", env) ∷ (codes "deployment.environment", env) ∷ [])
            ++ when_set source ((codes "mulga.source", source) ∷ [])))

-- What `resource.New` returns: an error, and whether there is a resource.
unfoldable pub resource_error : Option Bytes → Bool → Option Bytes
resource_error none made = none
resource_error (some e) made = if made then none else some e

pub data Provider : Type 0 where
  tracer : Provider
  meter : Provider
  logger : Provider

-- The globals that `Init` sets, and the providers that it has stopped.
pub record Globals (S : Type 0) : Type 0 where
  pub propagator : Bool
  pub providers : List Provider
  pub stopped : List Provider
  pub logs : Process S

-- The world of one call of `Init`: the error of each exporter where it cannot be made, that of stopping
-- a provider, the logger provider that is made, the build, and `resource.New`.
pub record World : Type 0 where
  pub getenv : Bytes → Bytes
  pub build_info : Option (Bytes × List (Bytes × Bytes))
  pub new_resource : List (Bytes × Bytes) → Option Bytes × Bool
  pub trace_exporter : Option Bytes
  pub metric_exporter : Option Bytes
  pub log_exporter : Option Bytes
  pub stop : Provider → Option Bytes
  pub logger_provider : ℕ

-- `shutdownAll`, and the function that `Init` returns: the errors of stopping each provider in turn.
unfoldable pub shutdown_all : (Provider → Option Bytes) → List Provider → List Bytes
shutdown_all stop [] = []
shutdown_all stop (p ∷ installed) = errors (stop p) ++ shutdown_all stop installed

-- The errors that are joined, or the providers that the shutdown function stops.
abbrev pub Started : Type 0 → Type 0
Started S = Globals S × Result (List Bytes) (List Provider)

unfoldable pub start_logs :
    {S : Type 0} → Slog S → World → Option Bytes → List Provider → Globals S → Started S
unfolding shutdown_all install_provider
start_logs lib w (some e) installed g =
    (record g { stopped = g.stopped ++ installed }, err (e ∷ shutdown_all w.stop installed))
start_logs lib w none installed g = (
  record g {
    providers = g.providers ++ (logger ∷ []);
    logs = install_provider lib w.logger_provider g.logs;
  },
  ok (installed ++ (logger ∷ [])),
)

unfoldable pub start_metrics :
    {S : Type 0} → Slog S → World → Option Bytes → List Provider → Globals S → Started S
unfolding start_logs
start_metrics lib w (some e) installed g =
    (record g { stopped = g.stopped ++ installed }, err (e ∷ shutdown_all w.stop installed))
start_metrics lib w none installed g =
    start_logs lib w w.log_exporter (installed ++ (meter ∷ []))
      (record g { providers = g.providers ++ (meter ∷ []) })

unfoldable pub start_tracing : {S : Type 0} → Slog S → World → Option Bytes → Globals S → Started S
unfolding start_metrics
start_tracing lib w (some e) g = (g, err (e ∷ []))
start_tracing lib w none g =
    start_metrics lib w w.metric_exporter (tracer ∷ [])
      (record g { providers = g.providers ++ (tracer ∷ []) })

unfoldable pub start_providers :
    {S : Type 0} → Slog S → World → InitConfig → Option Bytes → Globals S → Started S
unfolding start_tracing
start_providers lib w cfg (some e) g = (g, err (e ∷ []))
start_providers lib w cfg none g =
    if cfg.tracing
    then start_tracing lib w w.trace_exporter g
    else start_metrics lib w w.metric_exporter [] g

-- `Init` for a service; Go's runtime instrumentation is left out, which fails with a warning only.
unfoldable pub init :
    {S : Type 0} → Platform → Slog S → World → Bytes → List InitOption → Globals S → Started S
unfolding export_enabled resource_attrs resource_error start_providers
init p lib w service_name opts g =
    let cfg =
      apply_options opts (record { tracing = true; runtime_metrics = true; env_fallbacks = [] }) in
    let g' = record g { propagator = if cfg.tracing then true else g.propagator } in
    let made =
      w.new_resource (resource_attrs w.getenv w.build_info service_name cfg.env_fallbacks) in
    if not (export_enabled p w.getenv)
    then (g', ok [])
    else start_providers lib w cfg (resource_error made.0 made.1) g'
