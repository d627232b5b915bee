-- ===== src/Telemetry/Otlp/Post/Delivered.antt =====
-- What a nil error of an export says.
use libre_mail_bug_report_in.Prelude.{
  ℕ, ◌≡◌, ◌≤◌, ◌<◌, inl, inr, refl, ap, none, List, [], ◌∷◌, ◌⊎◌, In, ◌||◌, leb, ltb, Result, ok,
  err, arith, Bool-cases, Option-cases,
}
use libre_mail_bug_report_in.Prelude.Text.{Text, codes}
use libre_mail_bug_report_in.Telemetry.Data.{SpanData, LogRecord}
use libre_mail_bug_report_in.Telemetry.Otlp.{build_traces_payload, build_logs_payload}
use libre_mail_bug_report_in.Telemetry.Otlp.Post.{
  Host, HttpRequest, OtlpHttpExporter, make_request, answered, post, post_marshalled, export_spans,
  export_logs,
}
use libre_mail_bug_report_in.Telemetry.Otlp.Post.Headers.{
  Names, Carries, set_headers-Carries, In-set_headers,
}

module _ {W : Type 0} (host : Host W) where
  -- A body was made, and one request with it to this URL, with the content type and the configured
  -- headers, was answered with a 2xx status.
  abbrev pub Delivered : OtlpHttpExporter → Text → Result Text Text → W → W → Type 0
  Delivered e url marshalled w w' =
      (r : HttpRequest) × (status : ℕ) × (marshalled ≡ ok r.payload)
      × (host.request_error url ≡ none)
      × (r.url ≡ url)
      × Carries host e.headers r.request_headers
      × (Names host (codes "Content-Type") e.headers
          ⊎ In (codes "Content-Type", codes "application/json") r.request_headers)
      × (host.do_request r w ≡ (ok status, w'))
      × (200 ≤ status)
      × (status < 300)

  answered-nil :
      (url : Text) (r : Result Text ℕ × W) (w' : W)
      → answered host url r ≡ (none, w')
      → (status : ℕ) × (r ≡ (ok status, w')) × (200 ≤ status) × (status < 300)
  unfolding answered
  answered-nil url (err failure, w) w' h = cc
  answered-nil url (ok status, w) w' h = elim (Bool-cases (ltb status 200 || leb 300 status)) [
    | inl e ↦ let h' = rw (e, answered) at h in cc
    | inr e ↦
        let h' = rw (e, answered) at h in
        (status, ap (λ x. (ok status, x)) (ap (λ x. x.1) h'), (ground arith), (ground arith))
  ]

  post_marshalled-Delivered :
      (e : OtlpHttpExporter) (url what : Text) (marshalled : Result Text Text) (w w' : W)
      → post_marshalled host e url what marshalled w ≡ (none, w')
      → Delivered e url marshalled w w'
  unfolding post_marshalled post make_request
  post_marshalled-Delivered e url what (err failure) w w' h = cc
  post_marshalled-Delivered e url what (ok body) w w' h =
      elim (Option-cases (host.request_error url)) [
        | inr (failure, e') ↦ let h' = rw (e', post) at h in cc
        | inl e' ↦
            let (status, sent, low, high) = answered-nil url _ w' (rw (e', post) at h) in
            let first = (codes "Content-Type", codes "application/json") ∷ [] in
            (
              make_request host e url body,
              status,
              refl,
              e',
              refl,
              set_headers-Carries host e.headers first,
              In-set_headers host (codes "Content-Type", codes "application/json") e.headers first
                  (inl refl),
              sent,
              low,
              high,
            )
      ]

  -- Where ExportSpans of at least one span returns no error, the payload of exactly these spans was
  -- marshalled, and one request that has it as its body was posted to the traces URL and answered with
  -- a 2xx status. The request has every configured header that no later one of its name replaces, and
  -- the JSON content type unless one is configured.
  pub export_spans-Delivered :
      (e : OtlpHttpExporter) (s : SpanData) (spans : List SpanData) (w w' : W)
      → export_spans host e (s ∷ spans) w ≡ (none, w')
      → Delivered e e.traces_url
          (host.marshal_traces (build_traces_payload e.resource e.scope (s ∷ spans)))
          w
          w'
  unfolding export_spans
  export_spans-Delivered e s spans w w' h =
      post_marshalled-Delivered e e.traces_url (codes "otlp: marshal traces: ") _ w w' h

  -- The same of ExportLogs and the logs URL.
  pub export_logs-Delivered :
      (e : OtlpHttpExporter) (l : LogRecord) (logs : List LogRecord) (w w' : W)
      → export_logs host e (l ∷ logs) w ≡ (none, w')
      → Delivered e e.logs_url
          (host.marshal_logs (build_logs_payload e.resource e.scope (l ∷ logs)))
          w
          w'
  unfolding export_logs
  export_logs-Delivered e l logs w w' h =
      post_marshalled-Delivered e e.logs_url (codes "otlp: marshal logs: ") _ w w' h
