-- ===== src/Schedule.antt =====
-- internal/schedule/schedule.go: the Friday 17:00 Central gate and the weekly run.
pub mod Calendar
pub mod Gate
pub mod Weekly
pub mod Observed
mod Tests
