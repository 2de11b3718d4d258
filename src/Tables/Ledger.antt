-- ===== src/Tables/Ledger.antt =====
-- ledger/models.py: the operations ledger. Its rows stand in the order of their sequence numbers.
use ai_hq.Prelude.{ℕ, String, Option}
use ai_hq.Json.{Fields}

pub data LedgerEventType : Type 0 where
  mission_created mission_status_changed action_proposed permission_checked : LedgerEventType
  risk_checked approval_recorded tool_executed result_recorded : LedgerEventType

pub record LedgerEvent : Type 0 where
  pub mission_id : ℕ
  pub agent_key : Option String
  pub event_type : LedgerEventType
  pub summary : String
  pub event_data : Fields
