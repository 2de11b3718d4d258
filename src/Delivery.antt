-- ===== src/Delivery.antt =====
-- delivery/: the path of a proposed change from the developer through QA and a person's approval
-- to its publication, deployment and rollback.
pub mod Identity
pub mod Proposals
pub mod Runtime
pub mod Workspace
pub mod Values
pub mod Verifier
pub mod Runner
pub mod Releases
pub mod Decisions
pub mod Inversions
pub mod Steps
pub mod Releasable
pub mod Methods
pub mod Handing
pub mod Calls
pub mod Sound
pub mod Persists
pub mod Permanent
pub mod Course
pub mod Consent
pub mod Refusals
pub mod Handover
