-- ===== src/Approvals.antt =====
-- approvals/service.py: approval requests and scoped approval rules.
pub mod Requests
pub mod Rules
pub mod Budget
pub mod Decisions
pub mod Matching
pub mod Written
