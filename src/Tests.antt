-- ===== src/Tests.antt =====
-- The theorems at concrete inputs, and runs of the operations.
mod Data
mod Missions
mod Execution
mod Approvals
mod Safety
mod Config
mod Agents
mod Gateway
mod Recovery
mod Delivery
mod CodeChanges
mod Reopening
mod Github
mod Operations
