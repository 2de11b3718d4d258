-- ===== src/CodeChanges/Github.antt =====
-- code_changes/publisher.py: publication of a candidate on GitHub.
pub mod Targets
pub mod Base64
pub mod Requests
pub mod Entries
pub mod Base
pub mod Publisher
pub mod Asks
pub mod Writes
pub mod Publication
pub mod Answer
