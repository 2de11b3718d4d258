-- ===== src/Tables/Missions.antt =====
-- missions/models.py: missions and the steps of their plans.
use ai_hq.Prelude.{ℕ, String, Bool, true, false, Option, List}
use ai_hq.Json.{Json, Fields}

pub data MissionStatus : Type 0 where
  queued running waiting_approval paused completed failed cancelled : MissionStatus

pub data MissionStepStatus : Type 0 where
  pending running waiting_approval succeeded failed : MissionStepStatus

pub data MissionPriority : Type 0 where
  low normal high critical : MissionPriority

pub data MissionRisk : Type 0 where
  green blue amber red : MissionRisk

-- `==` and `is` on the enumerations.
abbrev pub same_status : MissionStatus → MissionStatus → Bool
same_status MissionStatus.queued MissionStatus.queued = true
same_status MissionStatus.running MissionStatus.running = true
same_status MissionStatus.waiting_approval MissionStatus.waiting_approval = true
same_status MissionStatus.paused MissionStatus.paused = true
same_status MissionStatus.completed MissionStatus.completed = true
same_status MissionStatus.failed MissionStatus.failed = true
same_status MissionStatus.cancelled MissionStatus.cancelled = true
same_status _ _ = false

abbrev pub same_step_status : MissionStepStatus → MissionStepStatus → Bool
same_step_status MissionStepStatus.pending MissionStepStatus.pending = true
same_step_status MissionStepStatus.running MissionStepStatus.running = true
same_step_status MissionStepStatus.waiting_approval MissionStepStatus.waiting_approval = true
same_step_status MissionStepStatus.succeeded MissionStepStatus.succeeded = true
same_step_status MissionStepStatus.failed MissionStepStatus.failed = true
same_step_status _ _ = false

abbrev pub same_risk : MissionRisk → MissionRisk → Bool
same_risk green green = true
same_risk blue blue = true
same_risk amber amber = true
same_risk red red = true
same_risk _ _ = false

pub record Mission : Type 0 where
  pub id : ℕ
  pub title : String
  pub description : String
  pub owner_agent : String
  pub source : String
  pub priority : MissionPriority
  pub risk : MissionRisk
  pub status : MissionStatus
  pub objectives : List Json
  pub dependencies : List Json
  pub result : Option Fields
  pub error_state : Option Fields
  pub xp_reward : ℕ
  pub lease_owner : Option String
  pub lease_expires_at : Option ℕ
  pub attempt_count : ℕ
  pub created_at : ℕ
  pub approval_references : List Json

pub record MissionStep : Type 0 where
  pub id : ℕ
  pub mission_id : ℕ
  pub position : ℕ
  pub description : String
  pub tool_name : String
  pub tool_arguments : Fields
  pub status : MissionStepStatus
  pub result : Option Fields
  pub error_state : Option Fields
  pub approval_reference : Option ℕ
