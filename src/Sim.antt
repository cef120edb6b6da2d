-- ===== src/Sim.antt =====
-- src/omegahive/sim: the reactors that drive a board.
pub mod Coordinator
pub mod Authority
pub mod Engine
pub mod Loop
pub mod Heap
pub mod Horizon
pub mod Clock
pub mod Quiescence
pub mod Settling
pub mod Stale
pub mod Worker
pub mod Review
pub mod Promoter
pub mod Firing
pub mod Measures
pub mod Reports
pub mod Wakes
pub mod Team
pub mod Prompt
pub mod Instruments
pub mod Viewing
pub mod Scenario
pub mod Planning
mod Runs
mod Watching
mod Planned
mod Tests
