-- ===== src/Safety.antt =====
-- safety/: the decision on a proposed action, and the service that takes it.
pub mod Policy
pub mod Permissions
pub mod Service
pub mod Requests
pub mod Frame
pub mod Start
