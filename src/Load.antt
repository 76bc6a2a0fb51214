-- ===== src/Load.antt =====
-- The load test of the server, scripts/loadtest/main.go: what it waits for in the output of a session,
-- what it measures, and in which order it runs.
pub mod Observer
pub mod Distribution
pub mod Phases
mod Tests
