-- ===== src/Harness.antt =====
-- src/omegahive/harness: what a worker's turn amounted to.
pub mod Turns
pub mod Evidence
mod Tests
