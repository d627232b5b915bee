-- ===== src/Telemetry/Otlp/Post.antt =====
-- internal/telemetry/otlp.go: NewOTLPHTTPExporter, ExportSpans, ExportLogs and post. json.Marshal,
-- http.NewRequest, the form of a header's name and the HTTP client are the host's. The client's
-- timeout and the draining of the answer's body have no effect on what is returned.
pub mod Delivered
pub mod Headers
use libre_mail_bug_report_in.Prelude.{
  ℕ, Option, none, some, List, [], ◌∷◌, ◌++◌, Bool, true, false, not, ◌&&◌, ◌||◌, ◌==◌, leb, ltb,
  if◌then◌else◌, Result, ok, err,
}
use libre_mail_bug_report_in.Prelude.Text.{Text, codes}
use libre_mail_bug_report_in.Telemetry.Data.{KeyValue, SpanData, LogRecord}
use libre_mail_bug_report_in.Telemetry.Provider.{Exporter}
use libre_mail_bug_report_in.Telemetry.Otlp.{
  OtlpSpan, OtlpLogRecord, OtlpPayload, Scope, build_traces_payload, build_logs_payload,
}
use libre_mail_bug_report_in.Telemetry.Otlp.Decimal.{format_unsigned}
use libre_mail_bug_report_in.Telemetry.Otlp.Headers.{Header, set_header}

pub record HttpRequest : Type 0 where
  pub url : Text
  pub request_headers : List Header
  pub payload : Text

pub record Host (W : Type 0) : Type 0 where
  pub marshal_traces : OtlpPayload OtlpSpan → Result Text Text
  pub marshal_logs : OtlpPayload OtlpLogRecord → Result Text Text
  -- the error of http.NewRequest for a URL
  pub request_error : Text → Option Text
  pub canonical : Text → Text
  -- the status of the answer
  pub do_request : HttpRequest → W → Result Text ℕ × W

pub record OtlpConfig : Type 0 where
  pub endpoint : Text
  pub config_headers : List Header
  pub config_resource : List KeyValue
  pub config_scope : Scope

pub record OtlpHttpExporter : Type 0 where
  pub traces_url : Text
  pub logs_url : Text
  pub headers : List Header
  pub resource : List KeyValue
  pub scope : Scope

-- strings.TrimRight(s, "/")
unfoldable pub trim_slashes : Text → Text
trim_slashes [] = []
trim_slashes (c ∷ s) = keep (trim_slashes s)
  where
    keep : Text → Text
    keep [] = if c == b'/' then [] else c ∷ []
    keep (d ∷ rest) = c ∷ d ∷ rest

unfoldable pub new_otlp_http_exporter : OtlpConfig → OtlpHttpExporter
unfolding trim_slashes
new_otlp_http_exporter cfg =
    let base = trim_slashes cfg.endpoint in
    record {
      traces_url = base ++ codes "/v1/traces";
      logs_url = base ++ codes "/v1/logs";
      headers = cfg.config_headers;
      resource = cfg.config_resource;
      scope = cfg.config_scope;
    }

module _ {W : Type 0} (host : Host W) where
  -- req.Header.Set for each configured header, behind the content type
  unfoldable pub set_headers : List Header → List Header → List Header
  unfolding set_header
  set_headers [] headers = headers
  set_headers ((k, v) ∷ rest) headers = set_headers rest (set_header (host.canonical k) v headers)

  unfoldable pub make_request : OtlpHttpExporter → Text → Text → HttpRequest
  unfolding set_headers
  make_request e url body = record {
    url = url;
    request_headers = set_headers e.headers ((codes "Content-Type", codes "application/json") ∷ []);
    payload = body;
  }

  -- the answer, or the error of the transport
  unfoldable pub answered : Text → Result Text ℕ × W → Option Text × W
  unfolding format_unsigned
  answered url (err failure, w) =
      (some (codes "otlp: post " ++ (url ++ (codes ": " ++ failure))), w)
  answered url (ok status, w) =
      if ltb status 200 || leb 300 status
      then (
        some (
            codes "otlp: post "
            ++ (url ++ (codes ": unexpected status " ++ format_unsigned status))),
        w,
      )
      else (none, w)

  unfoldable pub post : OtlpHttpExporter → Text → Text → W → Option Text × W
  unfolding make_request answered
  post e url body w = elim (host.request_error url) [
    | some failure ↦ (some (codes "otlp: build request: " ++ failure), w)
    | none ↦ answered url (host.do_request (make_request e url body) w)
  ]

  unfoldable pub post_marshalled :
      OtlpHttpExporter → Text → Text → Result Text Text → W → Option Text × W
  unfolding post
  post_marshalled e url what (err failure) w = (some (what ++ failure), w)
  post_marshalled e url what (ok body) w = post e url body w

  unfoldable pub export_spans : OtlpHttpExporter → List SpanData → W → Option Text × W
  unfolding post_marshalled
  export_spans e [] w = (none, w)
  export_spans e (s ∷ spans) w =
      post_marshalled e e.traces_url (codes "otlp: marshal traces: ")
        (host.marshal_traces (build_traces_payload e.resource e.scope (s ∷ spans))) w

  unfoldable pub export_logs : OtlpHttpExporter → List LogRecord → W → Option Text × W
  unfolding post_marshalled
  export_logs e [] w = (none, w)
  export_logs e (l ∷ logs) w =
      post_marshalled e e.logs_url (codes "otlp: marshal logs: ")
        (host.marshal_logs (build_logs_payload e.resource e.scope (l ∷ logs))) w

  unfoldable pub otlp_exporter : OtlpHttpExporter → Exporter W
  unfolding export_spans export_logs
  otlp_exporter e = record {
    export_spans = export_spans e;
    export_logs = export_logs e;
    shutdown = λ w. (none, w);
  }
