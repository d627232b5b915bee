-- ===== src/Ingest/Outcome.antt =====
-- internal/ingest/ingest.go: ServeHTTP with a telemetry provider. The wrapped handler writes one
-- header and one body through the recorder; what the span and the log record hold when the request
-- is finished is a value here. Span identity and export are the telemetry package's.
use libre_mail_bug_report_in.Prelude.{
  ℕ, ◌≡◌, refl, Option, none, some, List, [], ◌∷◌, ◌++◌, Bool, true, false, not, ◌&&◌, ◌==◌, ltb,
  leb, if◌then◌else◌, arith,
}
use libre_mail_bug_report_in.Prelude.Text.{Text, codes}
use libre_mail_bug_report_in.Prelude.Text.Spaces.{is_empty}
use libre_mail_bug_report_in.Ingest.Report.{Bytes, Report}
use libre_mail_bug_report_in.Ingest.Sinks.{Sink}
use libre_mail_bug_report_in.Ingest.Serve.{Request, Response, serve}

pub record StatusRecorder : Type 0 where
  pub status : ℕ
  pub wrote : Bool

unfoldable pub write_header : ℕ → StatusRecorder → StatusRecorder
write_header code s = if not s.wrote then record { status = code; wrote = true } else s

unfoldable pub write : StatusRecorder → StatusRecorder
write s = if not s.wrote then record { status = 200; wrote = true } else s

-- writeJSON through the recorder
unfoldable pub record_response : Response → StatusRecorder
unfolding write_header write
record_response response =
    write (write_header response.status (record { status = 200; wrote = false }))

pub data AttrValue : Type 0 where
  text_value : Text → AttrValue
  int_value : ℕ → AttrValue
  bool_value : Bool → AttrValue

abbrev pub Attr : Type 0
Attr = Text × AttrValue

pub data Outcome : Type 0 where
  accepted rejected rate_limited failed : Outcome

unfoldable pub outcome_text : Outcome → Text
outcome_text accepted = codes "accepted"
outcome_text rejected = codes "rejected"
outcome_text rate_limited = codes "rate_limited"
outcome_text failed = codes "error"

unfoldable pub classify_ingest : ℕ → Outcome × Text
classify_ingest status =
    if leb 200 status && ltb status 300
    then (accepted, [])
    else if status == 429
    then (rate_limited, codes "rate_limited")
    else if status == 503
    then (failed, codes "storage_unavailable")
    else if leb 500 status
    then (failed, codes "server_error")
    else if status == 413
    then (rejected, codes "payload_too_large")
    else if status == 415
    then (rejected, codes "unsupported_media_type")
    else if status == 405
    then (rejected, codes "method_not_allowed")
    else if leb 400 status
    then (rejected, codes "invalid_request")
    else (accepted, [])

pub data Severity : Type 0 where
  info error : Severity

pub data SpanStatus : Type 0 where
  status_ok status_unset : SpanStatus
  status_error : Text → SpanStatus

-- what finishIngestSpan leaves on the span, and the log record that it emits
pub record Finished : Type 0 where
  pub attributes : List Attr
  pub span_status : SpanStatus
  pub severity : Severity
  pub message : Text
  pub log_attributes : List Attr

abbrev pub alert_attrs : List Attr
alert_attrs =
    (codes "alert", bool_value true) ∷ (codes "alert.type", text_value (codes "ingest.error")) ∷ []

abbrev pub status_attr : ℕ → Attr
status_attr status = (codes "http.response.status_code", int_value status)

abbrev pub outcome_attr : Outcome → Attr
outcome_attr outcome = (codes "ingest.outcome", text_value (outcome_text outcome))

abbrev pub reason_attr : Text → Attr
reason_attr reason = (codes "ingest.reason", text_value reason)

unfoldable pub span_attrs : ℕ → Outcome → Text → List Attr
span_attrs status outcome reason =
    status_attr status
    ∷ outcome_attr outcome
    ∷ (if is_empty reason then [] else reason_attr reason ∷ [])

unfoldable pub finish_as : ℕ → Outcome → Text → Finished
unfolding span_attrs
finish_as status accepted reason = record {
  attributes = span_attrs status accepted reason;
  span_status = status_ok;
  severity = info;
  message = codes "ingest request accepted";
  log_attributes = outcome_attr accepted ∷ status_attr status ∷ [];
}
finish_as status failed reason = record {
  attributes = span_attrs status failed reason;
  span_status = status_error reason;
  severity = error;
  message = codes "ingest request failed";
  log_attributes =
      alert_attrs ++ (outcome_attr failed ∷ reason_attr reason ∷ status_attr status ∷ []);
}
finish_as status outcome reason = record {
  attributes = span_attrs status outcome reason;
  span_status = status_unset;
  severity = info;
  message = codes "ingest request " ++ outcome_text outcome;
  log_attributes = outcome_attr outcome ∷ reason_attr reason ∷ status_attr status ∷ [];
}

unfoldable pub finish_ingest_span : ℕ → Finished
unfolding classify_ingest finish_as
finish_ingest_span status =
    let (outcome, reason) = classify_ingest status in finish_as status outcome reason

module _ (parse_media_type : Text → Option Text) (is_rfc3339 : Text → Bool)
    (decode : Bytes → Option (Report × Bytes)) {W : Type 0} (sink_store : Sink W) where
  -- ServeHTTP, with a provider or without one
  unfoldable pub serve_http : Bool → Request → W → (Response × W) × Option Finished
  unfolding record_response
  serve_http false r w = (serve parse_media_type is_rfc3339 decode sink_store r w, none)
  serve_http true r w =
      let (response, w') = serve parse_media_type is_rfc3339 decode sink_store r w in
      ((response, w'), some (finish_ingest_span (record_response response).status))

  -- Telemetry only observes: with a provider the response and the state left behind are those
  -- without one, and what is recorded is the outcome of the status that was answered.
  pub serve_http_observes :
      (r : Request) (w : W)
      → serve_http true r w
        ≡ ((serve_http false r w).0, some (finish_ingest_span (serve_http false r w).0.0.status))
  unfolding serve_http
  serve_http_observes r w = refl

abbrev pub is_success : SpanStatus → Bool
is_success status_ok = true
is_success status_unset = false
is_success (status_error reason) = false

abbrev pub first_key : List Attr → Text
first_key [] = []
first_key (attr ∷ attrs) = attr.0

-- Whatever the status, the log record is an error that begins with the alert attribute exactly from
-- 500 on, any other one begins with the outcome, and the span is marked successful exactly below
-- 400.
pub finish_ingest_span_alerts :
    (status : ℕ)
    → ((finish_ingest_span status).severity ≡ (if leb 500 status then error else info))
      × (first_key (finish_ingest_span status).log_attributes
          ≡ (if leb 500 status then codes "alert" else codes "ingest.outcome"))
      × (is_success (finish_ingest_span status).span_status ≡ ltb status 400)
unfolding finish_ingest_span
finish_ingest_span_alerts status = ground arith
