-- ===== src/Promotion.antt =====
-- src/omegahive/promotion: which events reach a human, and the view of them.
pub mod Rules
pub mod Overrides
pub mod View
pub mod Tuning
pub mod Chain
mod Tests
