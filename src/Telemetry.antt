-- ===== src/Telemetry.antt =====
-- internal/telemetry: the shim for traces and logs. Data has the values that are exported, Provider
-- and Span the operations of telemetry.go, Memory the exporter of memory.go, Otlp the one of otlp.go.
pub mod Data
pub mod Provider
pub mod Span
pub mod Memory
pub mod Otlp
mod Tests
