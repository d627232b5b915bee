-- ===== src/Ingest.antt =====
-- internal/ingest: POST /v1/reports. Report.antt is report.go, Serve.antt and Outcome.antt are
-- ingest.go, Sinks.antt is sink.go.
pub mod Report
pub mod Sinks
pub mod Serve
pub mod Outcome
mod Tests
