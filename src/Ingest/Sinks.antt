-- ===== src/Ingest/Sinks.antt =====
-- internal/ingest/sink.go: the storage seam, and the two sinks of the package. A sink is an action on
-- its state; the mutex makes each call of MemorySink one step.
use libre_mail_bug_report_in.Prelude.{ℕ, List, [], ◌∷◌, ◌++◌, ok, Done, Action, length}
use libre_mail_bug_report_in.Ingest.Report.{Bytes}

-- The error of a sink is opaque to the endpoint.
abbrev pub Sink : Type 0 → Type 0
Sink W = Bytes → Action W (Unit {0}) Done

unfoldable pub nop_store : {W : Type 0} → Sink W
nop_store raw w = (ok tt, w)

pub record MemorySink : Type 0 where
  pub stored : List Bytes

unfoldable pub memory_store : Sink MemorySink
memory_store raw m = (ok tt, record { stored = m.stored ++ raw ∷ [] })

unfoldable pub reports : MemorySink → List Bytes
reports m = m.stored

unfoldable pub sink_len : MemorySink → ℕ
sink_len m = length m.stored
