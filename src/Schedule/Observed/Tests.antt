-- ===== src/Schedule/Observed/Tests.antt =====
-- Runs with telemetry, over the memory exporter.
use libre_mail_bug_report_in.Prelude.{
  ℕ, ◌≡◌, refl, none, some, List, [], ◌∷◌, Result, ok, err, Done,
}
use libre_mail_bug_report_in.Prelude.Text.{Text, codes}
use libre_mail_bug_report_in.Schedule.Gate.Friday.{cron_fire}
use libre_mail_bug_report_in.Schedule.Weekly.{RunError, run, publish_failed, list_pending_failed}
use libre_mail_bug_report_in.Schedule.Observed.{run_open, run_observed, run_observed-run}
use libre_mail_bug_report_in.Schedule.Observed.Signals.{KeepsSpans, Reports, run_open-Reports}
use libre_mail_bug_report_in.Telemetry.Provider.{Context, Exporter, enabled, from_context}
use libre_mail_bug_report_in.Telemetry.Memory.{
  memory_exporter, new_memory_exporter, keep_logs, memory_spans,
}
use libre_mail_bug_report_in.Telemetry.Memory.Laws.{
  Bench, bench_exported, bench_telemetry, bench_keeps,
}

abbrev print_time : ℕ → Text
print_time at = codes "2026-07-03T22:00:00Z"

abbrev print_error : RunError Text Text → Text
print_error (list_pending_failed e) = e
print_error (publish_failed e) = e

abbrev list_two : Context Bench → Bench → Result Text (List Text) × Bench
list_two ctx b = (ok (codes "a" ∷ codes "b" ∷ []), b)

abbrev publish_none : Context Bench → List Text → Bench → Result Text Done × Bench
publish_none ctx ids b = (err (codes "rate limited"), b)

abbrev exporter : Exporter Bench
exporter = memory_exporter Bench.memory (λ m b. record b { memory = m })

abbrev bench : Bench
bench = record { memory = new_memory_exporter; ticks = 1 }

abbrev traced : Context Bench
traced = record { provider = some bench_telemetry; active = none }

bench_laws : KeepsSpans bench_exported bench_telemetry exporter
unfolding memory_spans memory_exporter keep_logs
bench_laws = record {
  keeps = bench_keeps;
  logs_keep = λ logs w. refl;
  trace_keeps = λ w. refl;
  span_keeps = λ w. refl;
}

run_open-Reports_example :
    Reports print_time print_error list_two publish_none bench_exported bench_telemetry exporter
      bench_laws
      (λ ctx w. refl)
      (λ ctx ids w. refl)
      (some bench_telemetry)
      refl
      (codes "schedule.run")
      bench
      (run_open print_time print_error list_two publish_none
        (some bench_telemetry)
        (cron_fire 4 22)
        traced
        bench)
run_open-Reports_example =
    run_open-Reports print_time print_error list_two publish_none bench_exported bench_telemetry
      exporter bench_laws (λ ctx w. refl) (λ ctx ids w. refl) (some bench_telemetry) refl
      (cron_fire 4 22) traced bench

abbrev untraced : Context Bench
untraced = record { provider = none; active = none }

run_observed-run_example :
    run_observed print_time print_error list_two publish_none (cron_fire 4 22) untraced bench
    ≡ run (list_two untraced) (publish_none untraced) (cron_fire 4 22) bench
unfolding enabled from_context
run_observed-run_example =
    run_observed-run print_time print_error list_two publish_none (cron_fire 4 22) untraced bench
      refl
