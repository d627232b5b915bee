-- ===== src/Telemetry/Data.antt =====
-- internal/telemetry/telemetry.go: the values that spans and log records are made of. The numbers of
-- the OTLP enumerations are kept as numbers, as in the source; a time is Go's zero time or the
-- nanoseconds since the Unix epoch; an id is its bytes.
use libre_mail_bug_report_in.Prelude.{
  ℕ, Option, List, [], ◌∷◌, Bool, true, not, ◌&&◌, ◌==◌, leb, if◌then◌else◌,
}
use libre_mail_bug_report_in.Prelude.Text.{Text, codes}

abbrev pub Time : Type 0
Time = Option ℕ

abbrev pub IdBytes : Type 0
IdBytes = List ℕ

abbrev pub span_kind_internal : ℕ
span_kind_internal = 1

abbrev pub span_kind_server : ℕ
span_kind_server = 2

abbrev pub span_kind_client : ℕ
span_kind_client = 3

abbrev pub status_unset : ℕ
status_unset = 0

abbrev pub status_ok : ℕ
status_ok = 1

abbrev pub status_error : ℕ
status_error = 2

abbrev pub severity_info : ℕ
severity_info = 9

abbrev pub severity_warn : ℕ
severity_warn = 13

abbrev pub severity_error : ℕ
severity_error = 17

unfoldable pub severity_text : ℕ → Text
severity_text s =
    if leb severity_error s
    then codes "ERROR"
    else if leb severity_warn s
    then codes "WARN"
    else codes "INFO"

pub record Status : Type 0 where
  pub code : ℕ
  pub message : Text

pub data ℤ : Type 0 where
  pos negsuc : ℕ → ℤ

-- What an attribute's `any` may hold: float64 by its 64 bits, another type by its %v text.
pub data Value : Type 0 where
  string : Text → Value
  bool : Bool → Value
  int64 int : ℤ → Value
  float64 : ℕ → Value
  other : Text → Value

pub record KeyValue : Type 0 where
  pub key : Text
  pub value : Value

unfoldable pub string_attr : Text → Text → KeyValue
string_attr k v = record { key = k; value = string v }

unfoldable pub bool_attr : Text → Bool → KeyValue
bool_attr k v = record { key = k; value = bool v }

unfoldable pub int_attr : Text → ℤ → KeyValue
int_attr k v = record { key = k; value = int64 v }

unfoldable pub int64_attr : Text → ℤ → KeyValue
int64_attr k v = record { key = k; value = int64 v }

unfoldable pub float_attr : Text → ℕ → KeyValue
float_attr k v = record { key = k; value = float64 v }

abbrev pub attr_alert : Text
attr_alert = codes "alert"

abbrev pub attr_alert_type : Text
attr_alert_type = codes "alert.type"

unfoldable pub alert : Text → List KeyValue
unfolding bool_attr string_attr
alert alert_type = bool_attr attr_alert true ∷ string_attr attr_alert_type alert_type ∷ []

unfoldable pub is_zero : IdBytes → Bool
is_zero [] = true
is_zero (b ∷ id) = b == 0 && is_zero id

pub record SpanContext : Type 0 where
  pub trace_id : IdBytes
  pub span_id : IdBytes

-- SpanContext{}
abbrev pub no_span : SpanContext
no_span = record {
  trace_id = 0 ∷ 0 ∷ 0 ∷ 0 ∷ 0 ∷ 0 ∷ 0 ∷ 0 ∷ 0 ∷ 0 ∷ 0 ∷ 0 ∷ 0 ∷ 0 ∷ 0 ∷ 0 ∷ [];
  span_id = 0 ∷ 0 ∷ 0 ∷ 0 ∷ 0 ∷ 0 ∷ 0 ∷ 0 ∷ [];
}

unfoldable pub is_valid : SpanContext → Bool
unfolding is_zero
is_valid sc = not (is_zero sc.trace_id) && not (is_zero sc.span_id)

pub record Event : Type 0 where
  pub event_name : Text
  pub event_time : Time
  pub event_attributes : List KeyValue

pub record SpanData : Type 0 where
  pub name : Text
  pub span_context : SpanContext
  pub parent_span_id : IdBytes
  pub kind : ℕ
  pub start_time : Time
  pub end_time : Time
  pub attributes : List KeyValue
  pub events : List Event
  pub status : Status

pub record LogRecord : Type 0 where
  pub time : Time
  pub severity : ℕ
  pub body : Text
  pub log_attributes : List KeyValue
  pub log_context : SpanContext
