-- ===== src/Telemetry/Provider.antt =====
-- internal/telemetry/telemetry.go: the provider (New and its options, Enabled, StartSpan, Log) and
-- the values that a context carries. `W` is the state behind the exporter, the clock, the id sources
-- and the error handler; `none` in place of a provider or an exporter is Go's nil.
pub mod Nested
use libre_mail_bug_report_in.Prelude.{
  ℕ, Option, none, some, List, [], ◌∷◌, ◌++◌, Bool, true, false, if◌then◌else◌,
}
use libre_mail_bug_report_in.Prelude.Text.{Text}
use libre_mail_bug_report_in.Telemetry.Data.{
  Time, IdBytes, KeyValue, Status, SpanContext, no_span, SpanData, LogRecord, Event, is_zero,
  span_kind_internal, severity_info, severity_warn, severity_error, status_unset,
}

-- The result is the error, if there is one.
pub record Exporter (W : Type 0) : Type 0 where
  pub export_spans : List SpanData → W → Option Text × W
  pub export_logs : List LogRecord → W → Option Text × W
  pub shutdown : W → Option Text × W

pub record Telemetry (W : Type 0) : Type 0 where
  pub exporter : Option (Exporter W)
  pub now : W → Time × W
  pub new_trace : W → IdBytes × W
  pub new_span : W → IdBytes × W
  pub on_err : Text → W → W

-- the part of a context that the package keeps
pub record Context (W : Type 0) : Type 0 where
  pub provider : Option (Telemetry W)
  pub active : Option SpanContext

pub data SpanOption : Type 0 where
  with_span_kind : ℕ → SpanOption
  with_attributes : List KeyValue → SpanOption

pub record SpanConfig : Type 0 where
  pub config_kind : ℕ
  pub config_attrs : List KeyValue

unfoldable pub apply_option : SpanOption → SpanConfig → SpanConfig
apply_option (with_span_kind k) c = record c { config_kind = k }
apply_option (with_attributes attrs) c = record c { config_attrs = c.config_attrs ++ attrs }

unfoldable pub configure : List SpanOption → SpanConfig → SpanConfig
unfolding apply_option
configure [] c = c
configure (o ∷ opts) c = configure opts (apply_option o c)

-- The exporter is the provider's, which is not nil where there is a span.
pub record Span (W : Type 0) : Type 0 where
  pub tel : Telemetry W
  pub sink : Exporter W
  pub sc : SpanContext
  pub parent : IdBytes
  pub span_name : Text
  pub span_kind : ℕ
  pub start : Time
  pub attrs : List KeyValue
  pub span_events : List Event
  pub span_status : Status
  pub ended : Bool

pub data Setting (W : Type 0) : Type 0 where
  with_clock : Option (W → Time × W) → Setting W
  with_id_generator : Option (W → IdBytes × W) → Option (W → IdBytes × W) → Setting W
  with_error_handler : Option (Text → W → W) → Setting W

or_keep : {A : Type 0} → Option A → A → A
or_keep none old = old
or_keep (some new) old = new

module _ {W : Type 0} where
  unfoldable pub apply_setting : Setting W → Telemetry W → Telemetry W
  unfolding or_keep
  apply_setting (with_clock now) t = record t { now = or_keep now t.now }
  apply_setting (with_id_generator trace span) t = record t {
    new_trace = or_keep trace t.new_trace;
    new_span = or_keep span t.new_span;
  }
  apply_setting (with_error_handler fn) t = record t { on_err = or_keep fn t.on_err }

  unfoldable pub apply_settings : List (Setting W) → Telemetry W → Telemetry W
  unfolding apply_setting
  apply_settings [] t = t
  apply_settings (o ∷ opts) t = apply_settings opts (apply_setting o t)

  -- New: the clock and the two random sources are the host's; the default handler swallows.
  unfoldable pub new_telemetry :
      (W → Time × W)
      → (W → IdBytes × W)
      → (W → IdBytes × W)
      → Option (Exporter W)
      → List (Setting W)
      → Telemetry W
  unfolding apply_settings
  new_telemetry time_now random_trace_id random_span_id exp opts = apply_settings opts (record {
    exporter = exp;
    now = time_now;
    new_trace = random_trace_id;
    new_span = random_span_id;
    on_err = λ e w. w;
  })

  -- the exporter of a provider that is enabled
  abbrev pub exporter_of : Option (Telemetry W) → Option (Telemetry W × Exporter W)
  exporter_of none = none
  exporter_of (some t) = with_exporter t.exporter
    where
      with_exporter : Option (Exporter W) → Option (Telemetry W × Exporter W)
      with_exporter none = none
      with_exporter (some e) = some (t, e)

  unfoldable pub enabled : Option (Telemetry W) → Bool
  enabled t = elim (exporter_of t) [ none ↦ false | some e ↦ true ]

  unfoldable pub new_context : Context W → Option (Telemetry W) → Context W
  new_context ctx t = record ctx { provider = t }

  unfoldable pub from_context : Context W → Option (Telemetry W)
  from_context ctx = ctx.provider

  unfoldable pub context_with_span_context : Context W → SpanContext → Context W
  context_with_span_context ctx sc = record ctx { active = some sc }

  unfoldable pub span_context_from_context : Context W → SpanContext × Bool
  span_context_from_context ctx = elim ctx.active [ none ↦ (no_span, false) | some sc ↦ (sc, true) ]

  unfoldable pub trace_id_for : Telemetry W → IdBytes → W → IdBytes × W
  trace_id_for t id w = if is_zero id then t.new_trace w else (id, w)

  -- the span that is made under a parent, zero where there is none
  unfoldable pub span_under :
      Telemetry W → Exporter W → SpanContext → Text → List SpanOption → W → Span W × W
  unfolding configure trace_id_for
  span_under tel sink parent name opts w =
      let cfg = configure opts (record { config_kind = span_kind_internal; config_attrs = [] }) in
      let (trace, w1) = trace_id_for tel parent.trace_id w in
      let (id, w2) = tel.new_span w1 in
      let (at_start, w3) = tel.now w2 in
      (
        record {
          tel = tel;
          sink = sink;
          sc = record { trace_id = trace; span_id = id };
          parent = parent.span_id;
          span_name = name;
          span_kind = cfg.config_kind;
          start = at_start;
          attrs = cfg.config_attrs;
          span_events = [];
          span_status = record { code = status_unset; message = [] };
          ended = false;
        },
        w3,
      )

  unfoldable pub start_span :
      Option (Telemetry W)
      → Context W
      → Text
      → List SpanOption
      → W
      → (Context W × Option (Span W)) × W
  unfolding span_under context_with_span_context span_context_from_context
  start_span t ctx name opts w = elim (exporter_of t) [
    | none ↦ ((ctx, none), w)
    | some (tel, sink) ↦
        let (s, w') = span_under tel sink (span_context_from_context ctx).0 name opts w in
        ((context_with_span_context ctx s.sc, some s), w')
  ]

  -- onErr, where there is an error
  unfoldable pub handled : Telemetry W → Option Text × W → W
  handled t (none, w) = w
  handled t (some e, w) = t.on_err e w

  unfoldable pub log : Option (Telemetry W) → Context W → ℕ → Text → List KeyValue → W → W
  unfolding span_context_from_context handled
  log t ctx severity body attrs w = elim (exporter_of t) [
    | none ↦ w
    | some (tel, sink) ↦
        let (at, w1) = tel.now w in
        let sc = (span_context_from_context ctx).0 in
        let rec : LogRecord = record {
          time = at;
          severity = severity;
          body = body;
          log_attributes = attrs;
          log_context = sc;
        } in
        handled tel (sink.export_logs (rec ∷ []) w1)
  ]

  unfoldable pub log_info : Option (Telemetry W) → Context W → Text → List KeyValue → W → W
  unfolding log
  log_info t ctx body attrs w = log t ctx severity_info body attrs w

  unfoldable pub log_warn : Option (Telemetry W) → Context W → Text → List KeyValue → W → W
  unfolding log
  log_warn t ctx body attrs w = log t ctx severity_warn body attrs w

  unfoldable pub log_error : Option (Telemetry W) → Context W → Text → List KeyValue → W → W
  unfolding log
  log_error t ctx body attrs w = log t ctx severity_error body attrs w
