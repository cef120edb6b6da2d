-- ===== src/Metrics.antt =====
-- src/omegahive/metrics: measures of a run, and the detectors.
pub mod Detectors
pub mod Clocked
pub mod Deadlines
pub mod Core
pub mod Completions
mod Tests
