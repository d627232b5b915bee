-- ===== src/Schedule/Observed/Signals.antt =====
-- What a run leaves with the exporter of an enabled provider.
use libre_mail_bug_report_in.Prelude.{
  ℕ, ◌≡◌, ◌∙◌, inl, inr, refl, ap, Option, none, some, List, [], ◌∷◌, ◌++◌, Bool, true, false,
  Result, ok, err, Done, Action, length, Bool-cases,
}
use libre_mail_bug_report_in.Prelude.Text.{Text, codes}
use libre_mail_bug_report_in.Schedule.Weekly.{RunError, list_pending_failed, publish_failed}
use libre_mail_bug_report_in.Schedule.Observed.{
  ended_with, failed_with, observed_publish, observed_list, run_options, run_open,
}
use libre_mail_bug_report_in.Telemetry.Data.{
  pos, KeyValue, LogRecord, SpanContext, SpanData, int_attr, status_ok, status_error, is_zero,
}
use libre_mail_bug_report_in.Telemetry.Provider.{
  Exporter, Telemetry, Context, Span, SpanOption, exporter_of, start_span, span_under, trace_id_for,
  log, log_info, log_error, span_context_from_context, context_with_span_context,
}
use libre_mail_bug_report_in.Telemetry.Span.{set_attributes, set_status, data_of, end_span}
use libre_mail_bug_report_in.Telemetry.Span.Once.{
  KeepsExported, handled_keeps, end_appends, end_span_first,
}

module _ {W : Type 0} (exported : W → List SpanData) (tel : Telemetry W) (sink : Exporter W) where
  -- beside what an exporter of spans promises: log records and new ids leave the spans alone
  pub record KeepsSpans : Type 0 where
    pub keeps : KeepsExported exported tel sink
    pub logs_keep :
        (logs : List LogRecord) (w : W) → exported (sink.export_logs logs w).1 ≡ exported w
    pub trace_keeps : (w : W) → exported (tel.new_trace w).1 ≡ exported w
    pub span_keeps : (w : W) → exported (tel.new_span w).1 ≡ exported w

  module _ (laws : KeepsSpans) where
    trace_id_keeps :
        (sc : SpanContext) (w : W) → exported (trace_id_for tel sc.trace_id w).1 ≡ exported w
    unfolding trace_id_for
    trace_id_keeps sc w = elim (Bool-cases (is_zero sc.trace_id)) [
      | inl e ↦ rw e (laws.trace_keeps w)
      | inr e ↦ rw e refl
    ]

    span_under_keeps :
        (sc : SpanContext) (name : Text) (opts : List SpanOption) (w : W)
        → exported (span_under tel sink sc name opts w).1 ≡ exported w
    unfolding span_under
    span_under_keeps sc name opts w =
        laws.keeps.now_keeps (tel.new_span (trace_id_for tel sc.trace_id w).1).1
        ∙ (laws.span_keeps (trace_id_for tel sc.trace_id w).1 ∙ trace_id_keeps sc w)

    log_keeps :
        (t : Option (Telemetry W)) (ctx : Context W) (severity : ℕ) (body : Text)
        (attrs : List KeyValue) (w : W)
        → exporter_of t ≡ some (tel, sink)
        → exported (log t ctx severity body attrs w) ≡ exported w
    unfolding log
    log_keeps t ctx severity body attrs w on =
        rw (on, log)
          (handled_keeps exported tel sink laws.keeps (sink.export_logs _ (tel.now w).1)
            ∙ (laws.logs_keep _ (tel.now w).1 ∙ laws.keeps.now_keeps w))

    ended_exports :
        (s : Span W) (w : W)
        → s.tel ≡ tel
        → s.sink ≡ sink
        → s.ended ≡ false
        → exported (end_span (some s) w).1 ≡ exported w ++ data_of s (s.tel.now w).0 ∷ []
    ended_exports s w et es e =
        ap (λ x. exported x.1) (end_span_first s w e)
        ∙ end_appends exported tel sink laws.keeps s w et es

-- an error status exactly for a run that failed
unfoldable pub outcome_code : {E F : Type 0} → Option (RunError E F) → ℕ
outcome_code none = status_ok
outcome_code (some e) = status_error

module _ {W E F : Type 0} (print_time : ℕ → Text) (print_error : RunError E F → Text)
    (list_pending : Context W → Action W E (List Text))
    (publish : Context W → List Text → Action W F Done) (exported : W → List SpanData)
    (tel : Telemetry W) (sink : Exporter W) (laws : KeepsSpans exported tel sink)
    (list_keeps : (ctx : Context W) (w : W) → exported (list_pending ctx w).1 ≡ exported w)
    (publish_keeps : (ctx : Context W) (ids : List Text) (w : W)
      → exported (publish ctx ids w).1 ≡ exported w)
    (t : Option (Telemetry W)) (on : exporter_of t ≡ some (tel, sink)) where
  -- Behind `w` one span of this name was exported, and its status says how the run ended.
  abbrev pub Reports : Text → W → (Bool × Option (RunError E F)) × W → Type 0
  Reports name w x =
      (d : SpanData) × (exported x.1 ≡ exported w ++ d ∷ [])
      × (d.name ≡ name)
      × (d.status.code ≡ outcome_code x.0.1)

  ended_with-Reports :
      (s : Span W) (r : Option (RunError E F)) (w0 w : W)
      → s.tel ≡ tel
      → s.sink ≡ sink
      → s.ended ≡ false
      → s.span_status.code ≡ outcome_code r
      → exported w ≡ exported w0
      → Reports s.span_name w0
          (ended_with print_time print_error list_pending publish (true, r) (some s) w)
  unfolding ended_with
  ended_with-Reports s r w0 w et es open_ code same = (
    data_of s (s.tel.now w).0,
    ended_exports exported tel sink laws s w et es open_
        ∙ ap (λ x. x ++ data_of s (s.tel.now w).0 ∷ []) same,
    refl,
    code,
  )

  failed_with-Reports :
      (ctx : Context W) (s : Span W) (message : Text) (e : RunError E F) (w : W)
      → s.tel ≡ tel
      → s.sink ≡ sink
      → s.ended ≡ false
      → Reports s.span_name w
          (failed_with print_time print_error list_pending publish t ctx (some s) message e w)
  unfolding failed_with set_status log_error outcome_code
  failed_with-Reports ctx s message e w et es open_ =
      ended_with-Reports
        (record s { span_status = record { code = status_error; message = print_error e } })
        (some e) w _ et es open_ refl (log_keeps exported tel sink laws t ctx _ message _ w on)

  publish-Reports :
      (ctx : Context W) (s : Span W) (r : Result F Done) (w : W)
      → s.tel ≡ tel
      → s.sink ≡ sink
      → s.ended ≡ false
      → Reports s.span_name w
          (observed_publish print_time print_error list_pending publish t ctx (some s) r w)
  unfolding observed_publish set_status outcome_code
  publish-Reports ctx s (err e) w et es open_ =
      failed_with-Reports ctx s _ (publish_failed e) w et es open_
  publish-Reports ctx s (ok x) w et es open_ =
      ended_with-Reports (record s { span_status = record { code = status_ok; message = [] } }) none
        w w et es open_ refl refl

  list-Reports :
      (ctx : Context W) (s : Span W) (r : Result E (List Text)) (w : W)
      → s.tel ≡ tel
      → s.sink ≡ sink
      → s.ended ≡ false
      → Reports s.span_name w
          (observed_list print_time print_error list_pending publish t ctx (some s) r w)
  unfolding observed_list set_attributes log_info
  list-Reports ctx s (err e) w et es open_ =
      failed_with-Reports ctx s _ (list_pending_failed e) w et es open_
  list-Reports ctx s (ok ids) w et es open_ =
      let pending = int_attr (codes "schedule.pending") (pos (length ids)) ∷ [] in
      let logged =
        log_keeps exported tel sink laws t ctx 9 (codes "schedule: weekly trigger fired") pending w
          on in
      let told = log t ctx 9 (codes "schedule: weekly trigger fired") pending w in
      let (d, one, named, coded) =
        publish-Reports ctx (record s { attrs = s.attrs ++ pending }) (publish ctx ids told).0
          (publish ctx ids told).1 et es open_ in
      (d, one ∙ ap (λ x. x ++ d ∷ []) (publish_keeps ctx ids told ∙ logged), named, coded)

  -- With an enabled provider, and a lister and a publisher that export no span of their own: every run
  -- that the gate lets through exports exactly one span, schedule.run, whose status is an error exactly
  -- where the run returns one, and OK otherwise.
  pub run_open-Reports :
      (at : ℕ) (ctx : Context W) (w : W)
      → Reports
          (codes "schedule.run")
          w
          (run_open print_time print_error list_pending publish t at ctx w)
  unfolding run_open start_span span_under
  run_open-Reports at ctx w =
      let sc = (span_context_from_context ctx).0 in
      let s =
        (span_under tel sink sc (codes "schedule.run")
          (run_options print_time print_error list_pending publish at) w).0 in
      let w1 =
        (span_under tel sink sc (codes "schedule.run")
          (run_options print_time print_error list_pending publish at) w).1 in
      let ctx' = context_with_span_context ctx s.sc in
      let (d, one, named, coded) =
        list-Reports ctx' s (list_pending ctx' w1).0 (list_pending ctx' w1).1 refl refl refl in
      let same =
        list_keeps ctx' w1
        ∙ span_under_keeps exported tel sink laws sc (codes "schedule.run")
            (run_options print_time print_error list_pending publish at) w in
      rw (on, start_span) (d, one ∙ ap (λ x. x ++ d ∷ []) same, named, coded)
