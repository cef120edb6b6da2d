-- ===== src/Port.antt =====
-- src/omegahive/port: the surface that a coordinator plugs into.
pub mod Wire
pub mod Session
pub mod Retrying
pub mod Reading
mod Tests
