-- ===== src/Otelsetup/Handlers.antt =====
-- pkg/otelsetup/slog.go: the log handlers, and the process-wide default logger.
use bluebottle.Prelude.{
  ℕ, Bool, true, false, not, Option, none, some, List, [], ◌∷◌, ◌++◌, Bytes, codes, if◌then◌else◌,
}
use bluebottle.Prelude.Int.{ℤ, ltb_ℤ}
pub mod Delivery
pub mod Defaults
mod Samples

-- A level, or the variable that holds the level of the default logger.
pub data Leveler : Type 0 where
  fixed : ℤ → Leveler
  default_level : Leveler

abbrev pub level_of : ℤ → Leveler → ℤ
level_of now (fixed l) = l
level_of now default_level = now

-- A context: its trace and span identifiers where it has a valid span, and whatever else it carries.
pub record Context : Type 0 where
  pub span : Option (Bytes × Bytes)
  pub values : Bytes

abbrev pub Attr : Type 0
Attr = Bytes × Bytes

pub record LogRecord : Type 0 where
  pub level : ℤ
  pub message : Bytes
  pub attrs : List Attr

pub record LoggerConfig : Type 0 where
  pub service_name : Bytes
  pub writer : ℕ

-- The handlers of other packages, `S`: the JSON handler of a writer and a level, the OTLP bridge of a
-- service and a provider, and their methods, `now` being what the level variable holds.
pub record Slog (S : Type 0) : Type 0 where
  pub json_handler : ℕ → Leveler → S
  pub bridge : Bytes → ℕ → S
  pub sink_enabled : ℤ → S → Context → ℤ → Bool
  pub sink_handle : S → Context → LogRecord → Option Bytes
  pub sink_with_attrs : List Attr → S → S
  pub sink_with_group : Bytes → S → S

mutual
  pub data Handler (S : Type 0) : Type 0 where
    sink : S → Handler S
    trace_handler : Handler S → Handler S
    level_handler : Leveler → Handler S → Handler S
    fanout_handler : Handlers S → Handler S

  pub data Handlers (S : Type 0) : Type 0 where
    done : Handlers S
    also : Handler S → Handlers S → Handlers S

unfoldable mutual
  pub enabled : {S : Type 0} → Slog S → ℤ → Handler S → Context → ℤ → Bool
  enabled lib now (sink s) ctx l = lib.sink_enabled now s ctx l
  enabled lib now (trace_handler inner) ctx l = enabled lib now inner ctx l
  enabled lib now (level_handler level inner) ctx l = not (ltb_ℤ l (level_of now level))
  enabled lib now (fanout_handler handlers) ctx l = any_enabled lib now handlers ctx l

  pub any_enabled : {S : Type 0} → Slog S → ℤ → Handlers S → Context → ℤ → Bool
  any_enabled lib now done ctx l = false
  any_enabled lib now (also inner handlers) ctx l =
      let rest = any_enabled lib now handlers ctx l in
      if enabled lib now inner ctx l then true else rest

-- The identifiers of the span are added to the record.
abbrev pub stamp : Context → LogRecord → LogRecord
stamp ctx r = elim ctx.span [
  | none ↦ r
  | some (trace_id, span_id) ↦ record r {
    attrs = r.attrs ++ ((codes "trace_id", trace_id) ∷ (codes "span_id", span_id) ∷ []);
  }
]

-- What each handler of another package gets, in order, and the errors that are joined.
abbrev pub Delivered : Type 0 → Type 0
Delivered S = List (S × LogRecord) × List Bytes

abbrev pub errors : Option Bytes → List Bytes
errors none = []
errors (some e) = e ∷ []

abbrev pub after : {S : Type 0} → Delivered S → Delivered S → Delivered S
after (records, errs) (more, more_errs) = (records ++ more, errs ++ more_errs)

unfoldable mutual
  unfolding enabled

  pub handle : {S : Type 0} → Slog S → ℤ → Handler S → Context → LogRecord → Delivered S
  handle lib now (sink s) ctx r = ((s, r) ∷ [], errors (lib.sink_handle s ctx r))
  handle lib now (trace_handler inner) ctx r = handle lib now inner ctx (stamp ctx r)
  handle lib now (level_handler level inner) ctx r = handle lib now inner ctx r
  handle lib now (fanout_handler handlers) ctx r = handle_all lib now handlers ctx r

  pub handle_all : {S : Type 0} → Slog S → ℤ → Handlers S → Context → LogRecord → Delivered S
  handle_all lib now done ctx r = ([], [])
  handle_all lib now (also inner handlers) ctx r =
      let first = handle lib now inner ctx r in
      let rest = handle_all lib now handlers ctx r in
      if enabled lib now inner ctx r.level then after first rest else rest

-- `WithAttrs` and `WithGroup` derive a handler from one.
pub data Derivation : Type 0 where
  with_attrs : List Attr → Derivation
  with_group : Bytes → Derivation

abbrev pub derive_sink : {S : Type 0} → Slog S → Derivation → S → S
derive_sink lib (with_attrs attrs) s = lib.sink_with_attrs attrs s
derive_sink lib (with_group name) s = lib.sink_with_group name s

unfoldable mutual
  pub derive : {S : Type 0} → Slog S → Derivation → Handler S → Handler S
  derive lib d (sink s) = sink (derive_sink lib d s)
  derive lib d (trace_handler inner) = trace_handler (derive lib d inner)
  derive lib d (level_handler level inner) = level_handler level (derive lib d inner)
  derive lib d (fanout_handler handlers) = fanout_handler (derive_all lib d handlers)

  pub derive_all : {S : Type 0} → Slog S → Derivation → Handlers S → Handlers S
  derive_all lib d done = done
  derive_all lib d (also inner handlers) = also (derive lib d inner) (derive_all lib d handlers)

-- With the LoggerProvider that is installed, if one is.
unfoldable pub new_handler : {S : Type 0} → Slog S → LoggerConfig → Leveler → Option ℕ → Handler S
new_handler lib conf level none = trace_handler (sink (lib.json_handler conf.writer level))
new_handler lib conf level (some lp) = fanout_handler (
    also (trace_handler (sink (lib.json_handler conf.writer level)))
      (also (level_handler level (sink (lib.bridge conf.service_name lp))) done))

-- The process: the level variable, the arguments of the last `SetDefaultJSONLogger`, the provider that
-- `Init` installed, and the default logger where it is one of this package.
pub record Process (S : Type 0) : Type 0 where
  pub level : ℤ
  pub conf : Option LoggerConfig
  pub provider : Option ℕ
  pub default_logger : Option (Handler S)

unfoldable pub set_default_json_logger :
    {S : Type 0} → Slog S → LoggerConfig → ℤ → Process S → Process S
unfolding new_handler
set_default_json_logger lib conf level p = record p {
  level = level;
  conf = some conf;
  default_logger = some (new_handler lib conf default_level p.provider);
}

abbrev pub set_level : {S : Type 0} → ℤ → Process S → Process S
set_level level p = record p { level = level }

unfoldable pub refresh_default_logger : {S : Type 0} → Slog S → Process S → Process S
unfolding new_handler
refresh_default_logger lib p = elim p.conf [
  | none ↦ p
  | some conf ↦ record p { default_logger = some (new_handler lib conf default_level p.provider) }
]

-- The part of `Init` that is about logs.
unfoldable pub install_provider : {S : Type 0} → Slog S → ℕ → Process S → Process S
unfolding refresh_default_logger
install_provider lib lp p = refresh_default_logger lib (record p { provider = some lp })
