-- ===== src/Handler.antt =====
-- internal/handler: the routes of the service (handler.go) and the maintainer admin API (admin.go).
pub mod Admin
pub mod Routes
mod Tests
