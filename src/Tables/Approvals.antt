-- ===== src/Tables/Approvals.antt =====
-- approvals/models.py: approval requests and scoped approval rules.
use ai_hq.Prelude.{ℕ, String, Bool, true, false, Option}
use ai_hq.Json.{Json}
use ai_hq.Tables.Missions.{MissionRisk}

pub data ApprovalState : Type 0 where
  pending approved denied cancelled : ApprovalState

abbrev pub same_approval_state : ApprovalState → ApprovalState → Bool
same_approval_state pending pending = true
same_approval_state approved approved = true
same_approval_state denied denied = true
same_approval_state cancelled cancelled = true
same_approval_state _ _ = false

pub record ApprovalRequest : Type 0 where
  pub id : ℕ
  pub mission_id : ℕ
  pub requester_agent : String
  pub action : String
  pub target : String
  pub risk : MissionRisk
  pub action_plan : Json
  pub action_fingerprint : String
  pub state : ApprovalState
  pub expires_at : ℕ
  pub decided_at : Option ℕ

pub record ScopedApprovalRule : Type 0 where
  pub id : ℕ
  pub action : String
  pub target : String
  pub risk : MissionRisk
  pub conditions : Json
  pub expires_at : ℕ
  pub max_execution_count : Option ℕ
  pub execution_count : ℕ
