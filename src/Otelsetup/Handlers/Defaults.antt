-- ===== src/Otelsetup/Handlers/Defaults.antt =====
-- pkg/otelsetup/slog.go: the default logger over the life of a process.
use bluebottle.Prelude.{
  ◌≡◌, refl, ap, ◌∙◌, Option, none, some, List, [], ◌∷◌, Option-cases, inl, inr, ℕ,
}
use bluebottle.Prelude.Int.{ℤ, pos}
use bluebottle.Otelsetup.Handlers.{
  default_level, LoggerConfig, Slog, Handler, new_handler, Process, set_default_json_logger,
  set_level, refresh_default_logger, install_provider,
}

-- The calls that change the default logger.
pub data Call : Type 0 where
  set_default : LoggerConfig → ℤ → Call
  set : ℤ → Call
  init_logs : ℕ → Call

abbrev pub call : {S : Type 0} → Slog S → Call → Process S → Process S
call lib (set_default conf level) p = set_default_json_logger lib conf level p
call lib (set level) p = set_level level p
call lib (init_logs lp) p = install_provider lib lp p

abbrev pub calls : {S : Type 0} → Slog S → List Call → Process S → Process S
calls lib [] p = p
calls lib (c ∷ cs) p = calls lib cs (call lib c p)

-- At the start of a process, with its level variable at zero.
abbrev pub start : {S : Type 0} → Process S
start = record { level = pos 0; conf = none; provider = none; default_logger = none }

abbrev pub current : {S : Type 0} → Slog S → Option LoggerConfig → Option ℕ → Option (Handler S)
current lib none provider = none
current lib (some conf) provider = some (new_handler lib conf default_level provider)

abbrev pub IsCurrent : {S : Type 0} → Slog S → Process S → Type 0
IsCurrent lib p = p.default_logger ≡ current lib p.conf p.provider

call-IsCurrent :
    {S : Type 0} (lib : Slog S) (c : Call) (p : Process S)
    → IsCurrent lib p
    → IsCurrent lib (call lib c p)
unfolding set_default_json_logger install_provider refresh_default_logger
call-IsCurrent lib (set_default conf level) p h = refl
call-IsCurrent lib (set level) p h = h
call-IsCurrent lib (init_logs lp) p h = elim (Option-cases p.conf) [
  | inl n ↦ rw (n) (h ∙ ap (λ c. current lib c p.provider) n)
  | inr (conf, e) ↦ rw (e) refl
]

calls-IsCurrent :
    {S : Type 0} (lib : Slog S) (cs : List Call) (p : Process S)
    → IsCurrent lib p
    → IsCurrent lib (calls lib cs p)
calls-IsCurrent lib [] p h = h
calls-IsCurrent lib (c ∷ cs) p h = calls-IsCurrent lib cs (call lib c p) (call-IsCurrent lib c p h)

-- The last configuration, provider and level that calls have given.
abbrev pub last_conf : Option LoggerConfig → List Call → Option LoggerConfig
last_conf conf [] = conf
last_conf conf (set_default c level ∷ cs) = last_conf (some c) cs
last_conf conf (set level ∷ cs) = last_conf conf cs
last_conf conf (init_logs lp ∷ cs) = last_conf conf cs

abbrev pub last_provider : Option ℕ → List Call → Option ℕ
last_provider provider [] = provider
last_provider provider (set_default c level ∷ cs) = last_provider provider cs
last_provider provider (set level ∷ cs) = last_provider provider cs
last_provider provider (init_logs lp ∷ cs) = last_provider (some lp) cs

abbrev pub last_level : ℤ → List Call → ℤ
last_level level [] = level
last_level level (set_default c l ∷ cs) = last_level l cs
last_level level (set l ∷ cs) = last_level l cs
last_level level (init_logs lp ∷ cs) = last_level level cs

-- The parts of the process other than its logger.
abbrev pub Settings : Type 0
Settings = ℤ × Option LoggerConfig × Option ℕ

abbrev settings : {S : Type 0} → Process S → Settings
settings p = (p.level, p.conf, p.provider)

abbrev last_settings : Settings → List Call → Settings
last_settings (level, conf, provider) cs =
    (last_level level cs, last_conf conf cs, last_provider provider cs)

refresh_default_logger-settings :
    {S : Type 0} (lib : Slog S) (p : Process S)
    → settings (refresh_default_logger lib p) ≡ settings p
unfolding refresh_default_logger
refresh_default_logger-settings lib p = elim (Option-cases p.conf) [
  | inl n ↦ rw (n) refl
  | inr (conf, e) ↦ rw (e) refl
]

install_provider-settings :
    {S : Type 0} (lib : Slog S) (lp : ℕ) (p : Process S)
    → settings (install_provider lib lp p) ≡ (p.level, p.conf, some lp)
unfolding install_provider
install_provider-settings lib lp p =
    refresh_default_logger-settings lib (record p { provider = some lp })

set_default-settings :
    {S : Type 0} (lib : Slog S) (conf : LoggerConfig) (level : ℤ) (p : Process S)
    → settings (set_default_json_logger lib conf level p) ≡ (level, some conf, p.provider)
unfolding set_default_json_logger
set_default-settings lib conf level p = refl

calls-settings :
    {S : Type 0} (lib : Slog S) (cs : List Call) (p : Process S)
    → settings (calls lib cs p) ≡ last_settings (settings p) cs
calls-settings lib [] p = refl
calls-settings lib (set_default conf level ∷ cs) p =
    calls-settings lib cs (call lib (set_default conf level) p)
    ∙ ap (λ s. last_settings s cs) (set_default-settings lib conf level p)
calls-settings lib (set level ∷ cs) p = calls-settings lib cs (set_level level p)
calls-settings lib (init_logs lp ∷ cs) p =
    calls-settings lib cs (call lib (init_logs lp) p)
    ∙ ap (λ s. last_settings s cs) (install_provider-settings lib lp p)

-- In whatever order `SetDefaultJSONLogger`, `SetLevel` and the log part of `Init` are called, the default
-- logger is that of the last configuration with the OTLP bridge of the last provider, as far as there
-- are these, and its level is the last one that was set.
pub calls-current :
    {S : Type 0} (lib : Slog S) (cs : List Call)
    → ((calls lib cs start).default_logger
        ≡ current lib (last_conf none cs) (last_provider none cs))
      × ((calls lib cs start).level ≡ last_level (pos 0) cs)
calls-current lib cs =
    let same = calls-settings lib cs start in
    (
      calls-IsCurrent lib cs start refl
          ∙ ap (λ (level, conf, provider). current lib conf provider) same,
      ap (λ s. s.0) same,
    )
