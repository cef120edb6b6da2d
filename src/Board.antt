-- ===== src/Board.antt =====
-- The board package: task states, the legality table and the fold.
pub mod State
pub mod Legality
pub mod Reducer
pub mod Agreement
pub mod Pruning
pub mod Soundness
pub mod Reviewed
pub mod Verdicts
pub mod Totality
mod Tests
