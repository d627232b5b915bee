-- ===== src/Schedule/Observed.antt =====
-- internal/schedule/schedule.go: Run with its telemetry calls. The lister and the publisher are given
-- the context of the run's span; the text of an error and of the scheduled time are the host's.
pub mod Signals
mod Tests
use libre_mail_bug_report_in.Prelude.{
  ℕ, ◌≡◌, ◌∙◌, inl, inr, refl, sym, ap, Option, none, some, List, [], ◌∷◌, ◌++◌, Bool, true, false,
  Result, ok, err, Done, Action, if◌then◌else◌, length, Bool-cases, Option-cases, Result-cases,
}
use libre_mail_bug_report_in.Prelude.Text.{Text, codes}
use libre_mail_bug_report_in.Schedule.Gate.{is_friday_1700_central}
use libre_mail_bug_report_in.Schedule.Weekly.{
  RunError, list_pending_failed, publish_failed, run, after_list, after_publish,
}
use libre_mail_bug_report_in.Telemetry.Data.{
  pos, KeyValue, alert, string_attr, int_attr, span_kind_internal, status_ok, status_error,
}
use libre_mail_bug_report_in.Telemetry.Provider.{
  Telemetry, Context, Span, SpanOption, with_span_kind, with_attributes, enabled, exporter_of,
  from_context, start_span, log, log_info, log_error,
}
use libre_mail_bug_report_in.Telemetry.Span.{set_attributes, set_status, end_span}
use libre_mail_bug_report_in.Telemetry.Span.Disabled.{enabled-none}

abbrev pub alert_schedule_run_failed : Text
alert_schedule_run_failed = codes "schedule.run_failed"

module _ {W E F : Type 0} (print_time : ℕ → Text) (print_error : RunError E F → Text)
    (list_pending : Context W → Action W E (List Text))
    (publish : Context W → List Text → Action W F Done) where
  -- the deferred End, at a return
  unfoldable pub ended_with :
      Bool × Option (RunError E F) → Option (Span W) → W → (Bool × Option (RunError E F)) × W
  unfolding end_span
  ended_with result s w = (result, (end_span s w).1)

  unfoldable pub failed_with :
      Option (Telemetry W)
      → Context W
      → Option (Span W)
      → Text
      → RunError E F
      → W
      → (Bool × Option (RunError E F)) × W
  unfolding ended_with set_status log_error alert string_attr
  failed_with t ctx s message e w =
      ended_with (true, some e) (set_status status_error (print_error e) s)
        (log_error t ctx message
          (alert alert_schedule_run_failed ++ (string_attr (codes "error") (print_error e) ∷ [])) w)

  unfoldable pub observed_publish :
      Option (Telemetry W)
      → Context W
      → Option (Span W)
      → Result F Done
      → W
      → (Bool × Option (RunError E F)) × W
  unfolding failed_with ended_with set_status
  observed_publish t ctx s (err e) w =
      failed_with t ctx s (codes "schedule: publish run failed") (publish_failed e) w
  observed_publish t ctx s (ok _) w = ended_with (true, none) (set_status status_ok [] s) w

  unfoldable pub observed_list :
      Option (Telemetry W)
      → Context W
      → Option (Span W)
      → Result E (List Text)
      → W
      → (Bool × Option (RunError E F)) × W
  unfolding failed_with observed_publish set_attributes int_attr log_info
  observed_list t ctx s (err e) w =
      failed_with t ctx s (codes "schedule: list pending failed") (list_pending_failed e) w
  observed_list t ctx s (ok ids) w =
      let pending = int_attr (codes "schedule.pending") (pos (length ids)) ∷ [] in
      let (r, w') =
        publish ctx ids (log_info t ctx (codes "schedule: weekly trigger fired") pending w) in
      observed_publish t ctx (set_attributes pending s) r w'

  abbrev pub run_options : ℕ → List SpanOption
  run_options at =
      with_span_kind span_kind_internal
      ∷ with_attributes (string_attr (codes "schedule.scheduled_for") (print_time at) ∷ [])
      ∷ []

  unfoldable pub run_open :
      Option (Telemetry W) → ℕ → Context W → W → (Bool × Option (RunError E F)) × W
  unfolding observed_list start_span
  run_open t at ctx w =
      let ((ctx', s), w1) = start_span t ctx (codes "schedule.run") (run_options at) w in
      let (r, w2) = list_pending ctx' w1 in observed_list t ctx' s r w2

  unfoldable pub run_observed : ℕ → Context W → W → (Bool × Option (RunError E F)) × W
  unfolding run_open from_context
  run_observed at ctx w =
      if is_friday_1700_central at then run_open (from_context ctx) at ctx w else ((false, none), w)

  -- with no span and a provider that is off
  module _ (t : Option (Telemetry W)) (off : exporter_of t ≡ none) where
    log_off :
        (ctx : Context W) (severity : ℕ) (body : Text) (attrs : List KeyValue) (w : W)
        → log t ctx severity body attrs w ≡ w
    unfolding log
    log_off ctx severity body attrs w = rw (off, log) refl

    failed_off :
        (ctx : Context W) (message : Text) (e : RunError E F) (w : W)
        → failed_with t ctx none message e w ≡ ((true, some e), w)
    unfolding failed_with ended_with set_status end_span log_error
    failed_off ctx message e w = ap (λ v. ((true, some e), v)) (log_off ctx _ message _ w)

    publish_off :
        (ctx : Context W) (r : Result F Done) (w : W)
        → observed_publish t ctx none r w ≡ (after_publish (list_pending ctx) (publish ctx) r, w)
    unfolding observed_publish ended_with set_status end_span after_publish
    publish_off ctx (err e) w = failed_off ctx _ (publish_failed e) w
    publish_off ctx (ok x) w = refl

    list_off :
        (ctx : Context W) (r : Result E (List Text)) (w : W)
        → observed_list t ctx none r w ≡ after_list (list_pending ctx) (publish ctx) r w
    unfolding observed_list after_list log_info set_attributes
    list_off ctx (err e) w = failed_off ctx _ (list_pending_failed e) w
    list_off ctx (ok ids) w =
        rw
          (log_off ctx 9 (codes "schedule: weekly trigger fired")
            (int_attr (codes "schedule.pending") (pos (length ids)) ∷ []) w)
          (publish_off ctx (publish ctx ids w).0 (publish ctx ids w).1)

    open_off :
        (at : ℕ) (ctx : Context W) (w : W)
        → run_open t at ctx w
          ≡ after_list
              (list_pending ctx)
              (publish ctx)
              (list_pending ctx w).0
              (list_pending ctx w).1
    unfolding run_open start_span
    open_off at ctx w =
        rw (off, start_span) (list_off ctx (list_pending ctx w).0 (list_pending ctx w).1)

  -- With no provider in the context, or one that is not enabled, Run does exactly what it does without
  -- its telemetry calls: it hands the same context to the lister and the publisher, and the clock, the id
  -- sources and the exporter are not touched.
  pub run_observed-run :
      (at : ℕ) (ctx : Context W) (w : W)
      → enabled (from_context ctx) ≡ false
      → run_observed at ctx w ≡ run (list_pending ctx) (publish ctx) at w
  unfolding run_observed run
  run_observed-run at ctx w h =
      ap (λ open_. if is_friday_1700_central at then open_ else ((false, none), w))
        (open_off (from_context ctx) (enabled-none (from_context ctx) h) at ctx w)
