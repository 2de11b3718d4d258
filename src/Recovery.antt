-- ===== src/Recovery.antt =====
-- The recovery of the services that AI HQ watches.
pub mod Policy
pub mod Bounded
pub mod Incidents
pub mod Claims
pub mod Conditions
pub mod Decisions
pub mod Allowance
pub mod Consistent
pub mod Changes
pub mod Calls
pub mod Progress
pub mod Once
pub mod Keys
pub mod Failures
pub mod Sizes
