-- ===== src/Otelsetup/Handlers/Delivery.antt =====
-- pkg/otelsetup/slog.go: where a record goes.
use bluebottle.Prelude.{
  ◌≡◌, refl, sym, codes, leb, ◌+◌, ◌++◌, arith, none, Option, Bytes, ap, ap₂, append-nil, ◌∙◌, Bool,
  true, false, some, List, [], ◌∷◌, if◌then◌else◌, not, ℕ,
}
use bluebottle.Prelude.Int.{ℤ, pos_part, neg_part, ltb_ℤ}
use bluebottle.Otelsetup.Handlers.{
  Leveler, fixed, default_level, with_attrs, with_group, level_of, Context, LogRecord, LoggerConfig,
  Slog, Handler, sink, trace_handler, level_handler, fanout_handler, done, also, enabled, stamp,
  Delivered, errors, after, handle, Derivation, derive_sink, derive, new_handler,
}

-- A handler that is derived in several steps.
abbrev pub derived : {S : Type 0} → Slog S → List Derivation → Handler S → Handler S
derived lib [] h = h
derived lib (d ∷ ds) h = derived lib ds (derive lib d h)

-- A handler of another package with the attributes and the groups of these steps, in order.
abbrev pub derived_sink : {S : Type 0} → Slog S → List Derivation → S → S
derived_sink lib [] s = s
derived_sink lib (with_attrs attrs ∷ ds) s = derived_sink lib ds (lib.sink_with_attrs attrs s)
derived_sink lib (with_group name ∷ ds) s = derived_sink lib ds (lib.sink_with_group name s)

-- The handler with an OTLP bridge.
abbrev bridged : {S : Type 0} → Leveler → S → S → Handler S
bridged level j b =
    fanout_handler (also (trace_handler (sink j)) (also (level_handler level (sink b)) done))

derive-bridged :
    {S : Type 0} (lib : Slog S) (d : Derivation) (level : Leveler) (j b : S)
    → derive lib d (bridged level j b) ≡ bridged level (derive_sink lib d j) (derive_sink lib d b)
unfolding derive
derive-bridged lib d level j b = refl

derived-bridged :
    {S : Type 0} (lib : Slog S) (ds : List Derivation) (level : Leveler) (j b : S)
    → derived lib ds (bridged level j b)
      ≡ bridged level (derived_sink lib ds j) (derived_sink lib ds b)
derived-bridged lib [] level j b = refl
derived-bridged lib (with_attrs attrs ∷ ds) level j b =
    ap (derived lib ds) (derive-bridged lib (with_attrs attrs) level j b)
    ∙ derived-bridged lib ds level (lib.sink_with_attrs attrs j) (lib.sink_with_attrs attrs b)
derived-bridged lib (with_group name ∷ ds) level j b =
    ap (derived lib ds) (derive-bridged lib (with_group name) level j b)
    ∙ derived-bridged lib ds level (lib.sink_with_group name j) (lib.sink_with_group name b)

after_none : {S : Type 0} (x : Delivered S) → after x ([], []) ≡ x
after_none (records, errs) = ap₂ (λ a b. (a, b)) (append-nil records) (append-nil errs)

-- Two gates, one behind the other.
two_gates :
    {S : Type 0} (a b : Bool) (x y : Delivered S)
    → (let rest = if b then after y ([], []) else ([], []) in if a then after x rest else rest)
      ≡ after (if a then x else ([], [])) (if b then y else ([], []))
two_gates true true x y = ap (after x) (after_none y)
two_gates true false x y = refl
two_gates false true x y = after_none y
two_gates false false x y = refl

-- What one handler of another package is given, under a test.
abbrev given : {S : Type 0} → Slog S → Bool → S → Context → LogRecord → Delivered S
given lib b s ctx r = if b then ((s, r) ∷ [], errors (lib.sink_handle s ctx r)) else ([], [])

-- The attributes that identify a span.
abbrev pub span_attrs : Option (Bytes × Bytes) → List (Bytes × Bytes)
span_attrs none = []
span_attrs (some (trace, span)) = (codes "trace_id", trace) ∷ (codes "span_id", span) ∷ []

-- A record with the attributes of the span at its end.
abbrev pub with_span : Context → LogRecord → LogRecord
with_span ctx r = record {
  level = r.level;
  message = r.message;
  attrs = r.attrs ++ span_attrs ctx.span;
}

abbrev pub at_or_above : ℤ → Leveler → ℤ → Bool
at_or_above now (fixed least) level =
    leb (pos_part least + neg_part level) (pos_part level + neg_part least)
at_or_above now default_level level =
    leb (pos_part now + neg_part level) (pos_part level + neg_part now)

abbrev pub one_error : Option Bytes → List Bytes
one_error none = []
one_error (some e) = e ∷ []

errors-one_error : (o : Option Bytes) → errors o ≡ one_error o
errors-one_error none = refl
errors-one_error (some e) = refl

stamp-with_span : (ctx : Context) (r : LogRecord) → stamp ctx r ≡ with_span ctx r
stamp-with_span ctx r = by_span ctx.span
  where
    by_span :
        (o : Option (Bytes × Bytes))
        → elim o as (λ x. LogRecord) [
          | none ↦ r
          | some (trace, span) ↦ record r {
            attrs = r.attrs ++ ((codes "trace_id", trace) ∷ (codes "span_id", span) ∷ []);
          }
        ]
          ≡ record { level = r.level; message = r.message; attrs = r.attrs ++ span_attrs o }
    by_span none =
        ap (λ a. record { level = r.level; message = r.message; attrs = a })
          (sym (append-nil r.attrs))
    by_span (some (trace, span)) = refl

gate-at_or_above :
    (now : ℤ) (level : Leveler) (l : ℤ)
    → not (ltb_ℤ l (level_of now level)) ≡ at_or_above now level l
gate-at_or_above now (fixed least) l = ground arith
gate-at_or_above now default_level l = ground arith

handle-bridged :
    {S : Type 0} (lib : Slog S) (now : ℤ) (level : Leveler) (j b : S) (ctx : Context)
    (r : LogRecord)
    → handle lib now (bridged level j b) ctx r
      ≡ after
          (given lib (lib.sink_enabled now j ctx r.level) j ctx (stamp ctx r))
          (given lib (not (ltb_ℤ r.level (level_of now level))) b ctx r)
unfolding handle enabled
handle-bridged lib now level j b ctx r =
    two_gates (lib.sink_enabled now j ctx r.level) (not (ltb_ℤ r.level (level_of now level)))
      ((j, stamp ctx r) ∷ [], errors (lib.sink_handle j ctx (stamp ctx r)))
      ((b, r) ∷ [], errors (lib.sink_handle b ctx r))

-- The deliveries and the errors, spelled out.
after-given :
    {S : Type 0} (lib : Slog S) (a c : Bool) (j b : S) (ctx : Context) (r s : LogRecord)
    → after (given lib a j ctx r) (given lib c b ctx s) ≡ (
      (if a then (j, r) ∷ [] else []) ++ (if c then (b, s) ∷ [] else []),
      (if a then one_error (lib.sink_handle j ctx r) else [])
          ++ (if c then one_error (lib.sink_handle b ctx s) else []),
    )
after-given lib true true j b ctx r s =
    ap₂ (λ x y. ((j, r) ∷ (b, s) ∷ [], x ++ y)) (errors-one_error (lib.sink_handle j ctx r))
      (errors-one_error (lib.sink_handle b ctx s))
after-given lib true false j b ctx r s =
    ap (λ x. ((j, r) ∷ [], x ++ [])) (errors-one_error (lib.sink_handle j ctx r))
after-given lib false true j b ctx r s =
    ap (λ x. ((b, s) ∷ [], x)) (errors-one_error (lib.sink_handle b ctx s))
after-given lib false false j b ctx r s = refl

-- However a logger with a bridge is derived by attributes and groups, a record goes to its JSON handler,
-- if this is enabled for it, with `trace_id` and `span_id` of the context's span behind its attributes,
-- where it has a span; and then as it is to the bridge, exactly if it is at or above the level, whatever
-- the bridge itself says. Both have been given the same attributes and groups, and the errors of both are
-- joined.
pub handle-derived :
    {S : Type 0} (lib : Slog S) (now : ℤ) (conf : LoggerConfig) (level : Leveler) (lp : ℕ)
    (ds : List Derivation) (ctx : Context) (r : LogRecord)
    → (let json = derived_sink lib ds (lib.json_handler conf.writer level) in
        let bridge = derived_sink lib ds (lib.bridge conf.service_name lp) in
        let to_json = lib.sink_enabled now json ctx r.level in
        let to_bridge = at_or_above now level r.level in
        handle lib now (derived lib ds (new_handler lib conf level (some lp))) ctx r ≡ (
          (if to_json then (json, with_span ctx r) ∷ [] else [])
              ++ (if to_bridge then (bridge, r) ∷ [] else []),
          (if to_json then one_error (lib.sink_handle json ctx (with_span ctx r)) else [])
              ++ (if to_bridge then one_error (lib.sink_handle bridge ctx r) else []),
        ))
unfolding new_handler
handle-derived lib now conf level lp ds ctx r =
    let j = derived_sink lib ds (lib.json_handler conf.writer level) in
    let b = derived_sink lib ds (lib.bridge conf.service_name lp) in
    ap (λ h. handle lib now h ctx r)
      (derived-bridged lib ds level (lib.json_handler conf.writer level)
        (lib.bridge conf.service_name lp))
    ∙ handle-bridged lib now level j b ctx r
    ∙ ap₂
        (λ s c.
          after (given lib (lib.sink_enabled now j ctx r.level) j ctx s) (given lib c b ctx r))
        (stamp-with_span ctx r) (gate-at_or_above now level r.level)
    ∙ after-given lib (lib.sink_enabled now j ctx r.level) (at_or_above now level r.level) j b ctx
        (with_span ctx r) r
