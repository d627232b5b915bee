-- ===== src/Telemetry/Memory.antt =====
-- internal/telemetry/memory.go: the exporter that keeps what it is handed. The mutex makes each call
-- one step; a snapshot is the list itself, which nothing changes.
pub mod Laws
use libre_mail_bug_report_in.Prelude.{
  ℕ, Option, none, some, List, [], ◌∷◌, ◌++◌, Bool, true, false, if◌then◌else◌,
}
use libre_mail_bug_report_in.Prelude.Text.{Text, text_eq}
use libre_mail_bug_report_in.Telemetry.Data.{KeyValue, Value, SpanData, LogRecord}
use libre_mail_bug_report_in.Telemetry.Provider.{Exporter}

pub record MemoryExporter : Type 0 where
  pub kept_spans : List SpanData
  pub kept_logs : List LogRecord

abbrev pub new_memory_exporter : MemoryExporter
new_memory_exporter = record { kept_spans = []; kept_logs = [] }

unfoldable pub memory_spans : MemoryExporter → List SpanData
memory_spans m = m.kept_spans

unfoldable pub memory_logs : MemoryExporter → List LogRecord
memory_logs m = m.kept_logs

unfoldable pub reset : MemoryExporter → MemoryExporter
reset m = record { kept_spans = []; kept_logs = [] }

unfoldable pub keep_spans : List SpanData → MemoryExporter → Option Text × MemoryExporter
keep_spans spans m = (none, record m { kept_spans = m.kept_spans ++ spans })

unfoldable pub keep_logs : List LogRecord → MemoryExporter → Option Text × MemoryExporter
keep_logs logs m = (none, record m { kept_logs = m.kept_logs ++ logs })

-- The exporter as a part of a larger state: how to read it there and how to put it back.
module _ {W : Type 0} (read : W → MemoryExporter) (write : MemoryExporter → W → W) where
  unfoldable pub memory_exporter : Exporter W
  unfolding keep_spans keep_logs
  memory_exporter = record {
    export_spans = λ spans w. let (e, m) = keep_spans spans (read w) in (e, write m w);
    export_logs = λ logs w. let (e, m) = keep_logs logs (read w) in (e, write m w);
    shutdown = λ w. (none, w);
  }

first_named : Text → List SpanData → Option SpanData
first_named name [] = none
first_named name (s ∷ spans) = if text_eq s.name name then some s else first_named name spans

unfoldable pub span_by_name : MemoryExporter → Text → Option SpanData
unfolding first_named
span_by_name m name = first_named name m.kept_spans

all_named : Text → List SpanData → List SpanData
all_named name [] = []
all_named name (s ∷ spans) =
    let rest = all_named name spans in if text_eq s.name name then s ∷ rest else rest

unfoldable pub spans_by_name : MemoryExporter → Text → List SpanData
unfolding all_named
spans_by_name m name = all_named name m.kept_spans

-- Attr
unfoldable pub attr : List KeyValue → Text → Option Value
attr [] key = none
attr (kv ∷ attrs) key = if text_eq kv.key key then some kv.value else attr attrs key
