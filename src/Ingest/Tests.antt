-- ===== src/Ingest/Tests.antt =====
-- The endpoint on concrete requests. The decoders of the tests know one report.
use libre_mail_bug_report_in.Prelude.{
  inl, ◌≡◌, ◌↔◌, refl, Option, none, some, [], ◌∷◌, Bool, true, false, ok, ◌==◌, ◌||◌,
  if◌then◌else◌,
}
use libre_mail_bug_report_in.Prelude.Text.{Text, codes, text_eq}
use libre_mail_bug_report_in.Prelude.Text.Spaces.{trim_space, is_empty, byte_len}
use libre_mail_bug_report_in.Ingest.Report.{Bytes, Report, validate, more, parse_report}
use libre_mail_bug_report_in.Ingest.Report.Accepts.{
  IsAcceptable, Ends, validate-IsAcceptable, parse_report_iff, parse_report_trailing,
}
use libre_mail_bug_report_in.Ingest.Sinks.{MemorySink, memory_store}
use libre_mail_bug_report_in.Ingest.Serve.{Request, serve, accepted_response, is_json_content_type}
use libre_mail_bug_report_in.Ingest.Serve.Contract.{Answers, serve-Answers, serve_stores}
use libre_mail_bug_report_in.Ingest.Outcome.{finish_ingest_span, error}

abbrev sample : Report
sample = record {
  app_version = codes "1.4.2 (142)";
  platform = codes "android";
  report = codes "crash";
  os_version = [];
  device = [];
  client_timestamp = [];
}

abbrev accept_timestamp : Text → Bool
accept_timestamp t = true

abbrev json_media : Text → Option Text
json_media ct = some (codes "application/json")

abbrev decode_sample : Bytes → Option (Report × Bytes)
decode_sample raw = some (sample, [])

abbrev decode_with_tail : Bytes → Option (Report × Bytes)
decode_with_tail raw = some (sample, codes " ]garbage")

sample-IsAcceptable : IsAcceptable accept_timestamp sample
sample-IsAcceptable = (validate-IsAcceptable accept_timestamp sample).0 passes
  where
    passes : validate accept_timestamp sample ≡ none
    passes = unfold validate trim_space is_empty byte_len in refl

parse_report_iff_example :
    (parse_report accept_timestamp decode_sample (codes "{}") ≡ ok sample) ↔ (
      (rest : Bytes) × (decode_sample (codes "{}") ≡ some (sample, rest))
      × Ends rest
      × IsAcceptable accept_timestamp sample)
parse_report_iff_example = parse_report_iff accept_timestamp decode_sample (codes "{}") sample

abbrev post : Request
post = record {
  method = codes "POST";
  content_type = codes "application/json; charset=utf-8";
  content_length = some 2;
  body = record { sent = codes "{}"; broken = false };
}

abbrev empty_sink : MemorySink
empty_sink = record { stored = [] }

accepted_and_stored :
    serve json_media accept_timestamp decode_sample memory_store post empty_sink
    ≡ (accepted_response, record { stored = codes "{}" ∷ [] })
unfolding serve memory_store parse_report validate trim_space is_empty byte_len text_eq
    is_json_content_type more accepted_response
accepted_and_stored = refl

serve-Answers_example :
    Answers json_media accept_timestamp decode_sample memory_store post empty_sink
      (serve json_media accept_timestamp decode_sample memory_store post empty_sink).0
serve-Answers_example =
    serve-Answers json_media accept_timestamp decode_sample memory_store post empty_sink

serve_stores_example :
    (serve json_media accept_timestamp decode_sample memory_store post empty_sink).1 ≡ (
      if (serve json_media accept_timestamp decode_sample memory_store post empty_sink).0.status
          == 202
        || (serve json_media accept_timestamp decode_sample memory_store post empty_sink).0.status
          == 503
      then (memory_store (codes "{}") empty_sink).1
      else empty_sink)
serve_stores_example =
    serve_stores json_media accept_timestamp decode_sample memory_store post empty_sink

alert_on_503 : (finish_ingest_span 503).severity ≡ error
unfolding finish_ingest_span
alert_on_503 = refl

parse_report_trailing_example :
    parse_report accept_timestamp decode_with_tail (codes "{} ]garbage") ≡ ok sample
parse_report_trailing_example =
    parse_report_trailing accept_timestamp decode_with_tail (codes "{} ]garbage") sample (codes " ")
      b']' (codes "garbage") refl (inl refl, tt) (inl refl) sample-IsAcceptable
