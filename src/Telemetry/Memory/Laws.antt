-- ===== src/Telemetry/Memory/Laws.antt =====
-- The memory exporter in a state of its own with a clock and a count of the ids drawn: it keeps what
-- the spans of Span.Once promise of an exporter, and its look-ups agree.
use libre_mail_bug_report_in.Prelude.{
  ℕ, suc, ◌≡◌, inl, inr, refl, Option, none, some, List, [], ◌∷◌, Bool-cases,
}
use libre_mail_bug_report_in.Prelude.Text.{Text, text_eq}
use libre_mail_bug_report_in.Telemetry.Data.{SpanData}
use libre_mail_bug_report_in.Telemetry.Provider.{Telemetry}
use libre_mail_bug_report_in.Telemetry.Span.Once.{KeepsExported}
use libre_mail_bug_report_in.Telemetry.Memory.{
  MemoryExporter, memory_spans, memory_exporter, keep_spans, span_by_name, spans_by_name,
  first_named, all_named,
}

pub record Bench : Type 0 where
  pub memory : MemoryExporter
  pub ticks : ℕ

abbrev pub bench_exported : Bench → List SpanData
bench_exported b = memory_spans b.memory

abbrev pub bench_telemetry : Telemetry Bench
bench_telemetry = record {
  exporter = some (memory_exporter Bench.memory (λ m b. record b { memory = m }));
  now = λ b. (some b.ticks, record b { ticks = suc b.ticks });
  new_trace = λ b. (7 ∷ [], b);
  new_span = λ b. (b.ticks ∷ [], record b { ticks = suc b.ticks });
  on_err = λ e b. b;
}

pub bench_keeps :
    KeepsExported bench_exported bench_telemetry
      (memory_exporter Bench.memory (λ m b. record b { memory = m }))
unfolding memory_spans memory_exporter keep_spans
bench_keeps = record {
  export_spans_appends = λ spans w. refl;
  now_keeps = λ w. refl;
  on_err_keeps = λ e w. refl;
}

abbrev pub head : List SpanData → Option SpanData
head [] = none
head (s ∷ spans) = some s

all_named-head :
    (name : Text) (spans : List SpanData) → first_named name spans ≡ head (all_named name spans)
unfolding first_named all_named
all_named-head name [] = refl
all_named-head name (s ∷ spans) = elim (Bool-cases (text_eq s.name name)) [
  | inl e ↦ rw e refl
  | inr e ↦ rw e (all_named-head name spans)
]

-- SpanByName finds the first of the spans that SpansByName finds, and nothing if that finds none.
pub span_by_name-spans_by_name :
    (m : MemoryExporter) (name : Text) → span_by_name m name ≡ head (spans_by_name m name)
unfolding span_by_name spans_by_name
span_by_name-spans_by_name m name = all_named-head name m.kept_spans
