-- ===== src/Worker.antt =====
-- worker/: the entry points of the deployed Worker, over the bindings that the runtime gives it.
pub mod Scheduled
pub mod Provider
pub mod Backend
mod Tests
