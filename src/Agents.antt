-- ===== src/Agents.antt =====
-- agents/registry.py: the registry of the agents, and what it does to their permissions.
pub mod Registry
pub mod Authority
