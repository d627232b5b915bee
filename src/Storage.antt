-- ===== src/Storage.antt =====
-- internal/storage: the status-partitioned object keys (status.go), the object store seam
-- (store.go), its in-memory implementation (memory.go) and the ingest sink (sink.go).
pub mod Status
pub mod Store
pub mod R2
pub mod Memory
pub mod Sink
