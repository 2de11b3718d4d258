-- ===== src/Operations.antt =====
-- The operations on the watched system that the gateway's adapters carry out.
pub mod Targets
pub mod Texts
pub mod Adapters
pub mod Bootstrap
pub mod Safety
pub mod Consent
