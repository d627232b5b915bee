-- ===== src/Publish.antt =====
-- internal/publish: pending reports become GitHub issues. Format is format.go, Client is github.go,
-- Batch is publish.go.
pub mod Format
pub mod Client
pub mod Batch
mod Tests
