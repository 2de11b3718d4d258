-- ===== src/Gateway.antt =====
-- tool_gateway/: the one way from an agent's request to an adapter.
pub mod Service
pub mod Authority
pub mod Consent
pub mod Frame
pub mod Start
