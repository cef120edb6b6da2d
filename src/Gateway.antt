-- ===== src/Gateway.antt =====
-- src/omegahive/gateway: the policy, and the one write path to the log.
pub mod Policy
pub mod Names
pub mod Emit
pub mod Authority
pub mod Idempotency
pub mod Refusals
pub mod Others
pub mod Retry
pub mod Race
pub mod Foldable
mod Tests
