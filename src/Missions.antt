-- ===== src/Missions.antt =====
-- missions/: the mission store and the plans of its missions.
pub mod Transitions
pub mod Lifecycle
pub mod Plan
pub mod Leases
pub mod Moves
pub mod Commands
pub mod Terminal
pub mod Holding
pub mod Sequential
pub mod Planning
pub mod Executor
pub mod Worker
pub mod Execution
pub mod Settling
pub mod Order
pub mod Workers
pub mod Claimed
pub mod Requests
pub mod OneCall
