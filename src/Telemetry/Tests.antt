-- ===== src/Telemetry/Tests.antt =====
-- Runs of the telemetry package, and its theorems at concrete inputs.
use libre_mail_bug_report_in.Prelude.{
  ℕ, suc, ◌≡◌, refl, none, some, List, [], ◌∷◌, ◌++◌, false, map, ok, arith,
}
use libre_mail_bug_report_in.Prelude.Text.{Text, codes, text_eq}
use libre_mail_bug_report_in.Prelude.Text.Cut.{cut}
use libre_mail_bug_report_in.Prelude.Text.Spaces.{trim_space}
use libre_mail_bug_report_in.Telemetry.Data.{
  negsuc, SpanData, status_unset, string_attr, int_attr, status_error, span_kind_server, is_zero,
}
use libre_mail_bug_report_in.Telemetry.Provider.{
  Exporter, Context, Span, with_span_kind, SpanOption,
}
use libre_mail_bug_report_in.Telemetry.Provider.Nested.{start_each, Chained, start_each-Chained}
use libre_mail_bug_report_in.Telemetry.Span.Once.{
  SpanCall, attributes_call, status_call, error_call, end_call, call_all, ends, Describes,
  call_all-Exports,
}
use libre_mail_bug_report_in.Telemetry.Memory.{MemoryExporter, new_memory_exporter, memory_exporter}
use libre_mail_bug_report_in.Telemetry.Memory.Laws.{
  Bench, bench_exported, bench_telemetry, bench_keeps,
}
use libre_mail_bug_report_in.Telemetry.Otlp.{build_traces_payload, Scope}
use libre_mail_bug_report_in.Telemetry.Otlp.ReadBack.{
  read_span, IsSpan, read_spans-build_traces_payload,
}
use libre_mail_bug_report_in.Telemetry.Otlp.Headers.{parse_headers, print_headers, are_plain}
use libre_mail_bug_report_in.Telemetry.Otlp.Headers.RoundTrip.{parse_headers-print_headers}
use libre_mail_bug_report_in.Telemetry.Otlp.Post.{
  Host, OtlpHttpExporter, new_otlp_http_exporter, export_spans,
}
use libre_mail_bug_report_in.Telemetry.Otlp.Post.Delivered.{Delivered, export_spans-Delivered}

abbrev bench : Bench
bench = record { memory = new_memory_exporter; ticks = 1 }

abbrev bench_exporter : Exporter Bench
bench_exporter = memory_exporter Bench.memory (λ m b. record b { memory = m })

abbrev span : Span Bench
span = record {
  tel = bench_telemetry;
  sink = bench_exporter;
  sc = record { trace_id = 7 ∷ []; span_id = 8 ∷ [] };
  parent = [];
  span_name = codes "run";
  span_kind = span_kind_server;
  start = some 1;
  attrs = [];
  span_events = [];
  span_status = record { code = status_unset; message = [] };
  ended = false;
}

abbrev calls : List SpanCall
calls =
    attributes_call (string_attr (codes "k") (codes "v") ∷ [])
    ∷ error_call (some (codes "late"))
    ∷ end_call
    ∷ status_call 1 []
    ∷ end_call
    ∷ []

call_all-Exports_example :
    (d : SpanData) × (bench_exported (call_all calls (some span, bench)).1
      ≡ bench_exported bench ++ d ∷ [])
    × Describes span calls d
unfolding ends
call_all-Exports_example =
    call_all-Exports bench_exported bench_telemetry bench_exporter bench_keeps calls span bench refl
      refl refl refl

abbrev outside : Context Bench
outside = record { provider = none; active = none }

abbrev nested : List (Text × List SpanOption)
nested = (codes "run", []) ∷ (codes "report", with_span_kind 3 ∷ []) ∷ (codes "issue", []) ∷ []

start_each-Chained_example :
    Chained bench_telemetry (start_each bench_telemetry nested outside bench)
unfolding is_zero
start_each-Chained_example =
    start_each-Chained bench_telemetry bench_exporter refl nested outside bench refl (λ v. refl)

abbrev full : MemoryExporter
full = (call_all calls (some span, bench)).1.memory

abbrev failed_span : SpanData
failed_span = record {
  name = codes "run";
  span_context = record { trace_id = 7 ∷ 255 ∷ []; span_id = 16 ∷ [] };
  parent_span_id = 0 ∷ 0 ∷ 0 ∷ 0 ∷ 0 ∷ 0 ∷ 0 ∷ 0 ∷ [];
  kind = span_kind_server;
  start_time = some 1767323045000000000;
  end_time = none;
  attributes = int_attr (codes "n") (negsuc 41) ∷ [];
  events = [];
  status = record { code = status_error; message = codes "late" };
}

failed_span-IsSpan : IsSpan failed_span
unfolding int_attr
failed_span-IsSpan = record {
  trace_bytes = (omega arith, (omega arith, tt));
  span_bytes = (omega arith, tt);
  parent_bytes = (
    omega arith,
    (
      omega arith,
      (omega arith, (omega arith, (omega arith, (omega arith, (omega arith, (omega arith, tt)))))),
    ),
  );
  parent_length = refl;
  started = (omega arith, omega arith);
  ended = tt;
  typed = (omega arith, tt);
  recorded = tt;
}

abbrev no_scope : Scope
no_scope = record { scope_name = []; scope_version = [] }

read_spans-build_traces_payload_example :
    map read_span (build_traces_payload [] no_scope (failed_span ∷ [])).records ≡ failed_span ∷ []
read_spans-build_traces_payload_example =
    read_spans-build_traces_payload [] no_scope (failed_span ∷ []) (failed_span-IsSpan, tt)

abbrev two_headers : List (Text × Text)
two_headers =
    (codes "Authorization", codes "Bearer a=b") ∷ (codes "x-tenant", codes "libremail") ∷ []

parse_headers-print_headers_example : parse_headers (print_headers two_headers) ≡ two_headers
unfolding are_plain trim_space text_eq
parse_headers-print_headers_example = parse_headers-print_headers two_headers refl

headers_are_lenient : parse_headers (codes " a = 1 , b, =c,a=2") ≡ (codes "a", codes "2") ∷ []
unfolding parse_headers trim_space cut text_eq
headers_are_lenient = refl

-- a collector that answers 200 and counts the requests
abbrev collector : Host ℕ
collector = record {
  marshal_traces = λ p. ok (codes "{}");
  marshal_logs = λ p. ok (codes "{}");
  request_error = λ url. none;
  canonical = λ k. k;
  do_request = λ r n. (ok 200, suc n);
}

abbrev exporter : OtlpHttpExporter
exporter = record {
  traces_url = codes "https://o/v1/traces";
  logs_url = [];
  headers = [];
  resource = [];
  scope = no_scope;
}

made :
    new_otlp_http_exporter (record {
      endpoint = codes "https://o//";
      config_headers = [];
      config_resource = [];
      config_scope = no_scope;
    })
    ≡ record {
      traces_url = codes "https://o/v1/traces";
      logs_url = codes "https://o/v1/logs";
      headers = [];
      resource = [];
      scope = no_scope;
    }
unfolding new_otlp_http_exporter
made = refl

export_spans-Delivered_example :
    Delivered collector exporter exporter.traces_url
      (collector.marshal_traces (build_traces_payload [] no_scope (failed_span ∷ [])))
      0
      1
unfolding export_spans
export_spans-Delivered_example = export_spans-Delivered collector exporter failed_span [] 0 1 refl
