-- ===== src/Config.antt =====
-- config.py: `Settings` and its validators, and repository_source_policy.py.
pub mod Paths
pub mod Settings
pub mod Accepted
pub mod Production
