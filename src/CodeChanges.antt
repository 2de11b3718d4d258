-- ===== src/CodeChanges.antt =====
-- code_changes/: the service that has code changes prepared, published, deployed and rolled back.
pub mod Candidates
pub mod Deployers
pub mod Store
pub mod Reopening
pub mod Service
pub mod Releases
pub mod Approved
pub mod Doing
pub mod Effects
pub mod Permission
pub mod Queue
pub mod Settled
pub mod Answers
pub mod Files
pub mod Github
