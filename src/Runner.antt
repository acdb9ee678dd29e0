-- ===== src/Runner.antt =====
-- internal/runner: the local build runner: its log sink, its registry of the current build, and its worker.
pub mod Sink
pub mod Registry
pub mod Worker
pub mod Paths
mod Tests
