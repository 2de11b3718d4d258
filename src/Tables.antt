-- ===== src/Tables.antt =====
-- The database behind every service: its tables, the counter that stands for the source of fresh
-- ids, and the requests that adapters were given, oldest first, which is what the program did to
-- the outside world.
pub mod Missions
pub mod Ledger
pub mod Approvals
pub mod System
pub mod Recovery
pub mod Deliveries
use ai_hq.Prelude.{ℕ, Option, List}
use ai_hq.Tools.{ToolRequest}
use Missions.{Mission, MissionStep}
use Ledger.{LedgerEvent}
use Approvals.{ApprovalRequest, ScopedApprovalRule}
use Deliveries.{Delivery}
use System.{SystemState, Agent}

pub record Db : Type 0 where
  pub missions : List Mission
  pub steps : List MissionStep
  pub requests : List ApprovalRequest
  pub rules : List ScopedApprovalRule
  pub events : List LedgerEvent
  pub agents : List Agent
  pub system_state : Option SystemState
  pub next_id : ℕ
  pub calls : List ToolRequest
  pub deliveries : List Delivery
