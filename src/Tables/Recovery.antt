-- ===== src/Tables/Recovery.antt =====
-- recovery/models.py: incidents, and the attempts to recover from them.
use ai_hq.Prelude.{ℕ, String, Bool, true, false, Option, List}
use ai_hq.Json.{Fields}

pub data RecoveryIncidentState : Type 0 where
  suspect diagnosing recovery_pending recovering : RecoveryIncidentState
  verifying resolved escalated : RecoveryIncidentState

abbrev pub same_state : RecoveryIncidentState → RecoveryIncidentState → Bool
same_state suspect suspect = true
same_state diagnosing diagnosing = true
same_state recovery_pending recovery_pending = true
same_state recovering recovering = true
same_state verifying verifying = true
same_state resolved resolved = true
same_state escalated escalated = true
same_state _ _ = false

pub record RecoveryIncident : Type 0 where
  pub id : ℕ
  pub active_key : Option String
  pub target : String
  pub component : String
  pub state : RecoveryIncidentState
  pub consecutive_failures : ℕ
  pub first_failure_at : ℕ
  pub last_failure_at : ℕ
  pub last_observed_at : ℕ
  pub diagnostics : Fields
  pub verification : Fields
  pub recovery_mission_id : Option ℕ
  pub last_recovery_attempt_at : Option ℕ
  pub escalation_reason : Option String
  pub resolved_at : Option ℕ

pub record RecoveryAttempt : Type 0 where
  pub id : ℕ
  pub incident_id : ℕ
  pub target : String
  pub component : String
  pub mission_id : Option ℕ
  pub attempted_at : ℕ
  pub simulated : Bool
  pub outcome : String
  pub result : Fields

-- The two tables, which no other service touches, and the counter of their ids.
pub record RecoveryDb : Type 0 where
  pub incidents : List RecoveryIncident
  pub attempts : List RecoveryAttempt
  pub next_id : ℕ
