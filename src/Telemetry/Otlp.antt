-- ===== src/Telemetry/Otlp.antt =====
-- internal/telemetry/otlp.go: the wire types and how spans and log records are put in them. A field
-- with omitempty is left out of the JSON where it is empty; a pointer field is an Option.
pub mod Decimal
pub mod ReadBack
pub mod Headers
pub mod Post
use libre_mail_bug_report_in.Prelude.{
  ℕ, Option, none, some, List, [], ◌∷◌, ◌++◌, map, Bool, true, false, not, ◌&&◌, ◌||◌, ◌==◌,
  if◌then◌else◌,
}
use libre_mail_bug_report_in.Prelude.Text.{Text, codes}
use libre_mail_bug_report_in.Prelude.Text.Spaces.{is_empty}
use libre_mail_bug_report_in.Storage.Sink.{hex}
use libre_mail_bug_report_in.Telemetry.Data.{
  Time, IdBytes, Value, string, bool, int64, int, float64, other, KeyValue, Status, Event, SpanData,
  LogRecord, SpanContext, is_zero, is_valid, severity_text, status_unset,
}
use libre_mail_bug_report_in.Telemetry.Otlp.Decimal.{format_int, format_unsigned}

-- exactly one of the four fields of the source, int64 as a string
pub data OtlpAnyValue : Type 0 where
  string_value : Text → OtlpAnyValue
  bool_value : Bool → OtlpAnyValue
  int_value : Text → OtlpAnyValue
  double_value : ℕ → OtlpAnyValue

pub record OtlpKeyValue : Type 0 where
  pub otlp_key : Text
  pub otlp_value : OtlpAnyValue

pub record OtlpStatus : Type 0 where
  pub status_message : Text
  pub status_code : ℕ

pub record OtlpEvent : Type 0 where
  pub event_time_unix_nano : Text
  pub otlp_event_name : Text
  pub otlp_event_attributes : List OtlpKeyValue

pub record OtlpSpan : Type 0 where
  pub trace_id_hex : Text
  pub span_id_hex : Text
  pub parent_span_id_hex : Text
  pub otlp_name : Text
  pub otlp_kind : ℕ
  pub start_time_unix_nano : Text
  pub end_time_unix_nano : Text
  pub otlp_attributes : List OtlpKeyValue
  pub otlp_events : List OtlpEvent
  pub otlp_status : Option OtlpStatus

pub record OtlpLogRecord : Type 0 where
  pub time_unix_nano : Text
  pub severity_number : ℕ
  pub otlp_severity_text : Text
  pub otlp_body : Option OtlpAnyValue
  pub log_record_attributes : List OtlpKeyValue
  pub log_trace_id : Text
  pub log_span_id : Text

pub record Scope : Type 0 where
  pub scope_name : Text
  pub scope_version : Text

-- The payloads hold one resource with one scope.
pub record OtlpPayload (A : Type 0) : Type 0 where
  pub resource_attributes : List OtlpKeyValue
  pub otlp_scope : Scope
  pub records : List A

unfoldable pub to_any_value : Value → OtlpAnyValue
unfolding format_int
to_any_value (string x) = string_value x
to_any_value (bool x) = bool_value x
to_any_value (int64 x) = int_value (format_int x)
to_any_value (int x) = int_value (format_int x)
to_any_value (float64 x) = double_value x
to_any_value (other printed) = string_value printed

unfoldable pub to_otlp_attrs : List KeyValue → List OtlpKeyValue
unfolding to_any_value
to_otlp_attrs [] = []
to_otlp_attrs (kv ∷ attrs) =
    record { otlp_key = kv.key; otlp_value = to_any_value kv.value } ∷ to_otlp_attrs attrs

unfoldable pub nanos : Time → Text
unfolding format_unsigned
nanos none = codes "0"
nanos (some n) = format_unsigned n

unfoldable pub to_otlp_events : List Event → List OtlpEvent
unfolding nanos to_otlp_attrs
to_otlp_events [] = []
to_otlp_events (ev ∷ events) =
    record {
      event_time_unix_nano = nanos ev.event_time;
      otlp_event_name = ev.event_name;
      otlp_event_attributes = to_otlp_attrs ev.event_attributes;
    }
    ∷ to_otlp_events events

unfoldable pub parent_hex : IdBytes → Text
unfolding is_zero hex
parent_hex id = if not (is_zero id) then hex id else []

unfoldable pub to_otlp_status : Status → Option OtlpStatus
to_otlp_status s =
    if not (s.code == status_unset) || not (is_empty s.message)
    then some (record { status_message = s.message; status_code = s.code })
    else none

unfoldable pub to_otlp_span : SpanData → OtlpSpan
unfolding hex parent_hex nanos to_otlp_attrs to_otlp_events to_otlp_status
to_otlp_span s = record {
  trace_id_hex = hex s.span_context.trace_id;
  span_id_hex = hex s.span_context.span_id;
  parent_span_id_hex = parent_hex s.parent_span_id;
  otlp_name = s.name;
  otlp_kind = s.kind;
  start_time_unix_nano = nanos s.start_time;
  end_time_unix_nano = nanos s.end_time;
  otlp_attributes = to_otlp_attrs s.attributes;
  otlp_events = to_otlp_events s.events;
  otlp_status = to_otlp_status s.status;
}

unfoldable pub build_traces_payload : List KeyValue → Scope → List SpanData → OtlpPayload OtlpSpan
unfolding to_otlp_attrs to_otlp_span
build_traces_payload resource scope spans = record {
  resource_attributes = to_otlp_attrs resource;
  otlp_scope = scope;
  records = map to_otlp_span spans;
}

unfoldable pub correlated : SpanContext → Text × Text
unfolding is_valid hex
correlated sc = if is_valid sc then (hex sc.trace_id, hex sc.span_id) else ([], [])

unfoldable pub to_otlp_log_record : LogRecord → OtlpLogRecord
unfolding nanos severity_text to_otlp_attrs correlated
to_otlp_log_record l = record {
  time_unix_nano = nanos l.time;
  severity_number = l.severity;
  otlp_severity_text = severity_text l.severity;
  otlp_body = some (string_value l.body);
  log_record_attributes = to_otlp_attrs l.log_attributes;
  log_trace_id = (correlated l.log_context).0;
  log_span_id = (correlated l.log_context).1;
}

unfoldable pub build_logs_payload :
    List KeyValue → Scope → List LogRecord → OtlpPayload OtlpLogRecord
unfolding to_otlp_attrs to_otlp_log_record
build_logs_payload resource scope logs = record {
  resource_attributes = to_otlp_attrs resource;
  otlp_scope = scope;
  records = map to_otlp_log_record logs;
}
