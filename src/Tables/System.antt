-- ===== src/Tables/System.antt =====
-- models/system_state.py, agents/models.py and `OperatingMode` of config.py.
use ai_hq.Prelude.{ℕ, String, Bool, true, false, Option, List}

pub data OperatingMode : Type 0 where
  normal safe freeze : OperatingMode

abbrev pub same_mode : OperatingMode → OperatingMode → Bool
same_mode normal normal = true
same_mode safe safe = true
same_mode freeze freeze = true
same_mode _ _ = false

-- The column `operating_mode` is a text; `none` stands for a text that spells no mode.
pub record SystemState : Type 0 where
  pub operating_mode : Option OperatingMode
  pub simulation_mode : Bool

pub data AgentStatus : Type 0 where
  idle working waiting_approval failed completed : AgentStatus

-- The column `performance_metrics` is left out, which nothing reads or writes.
pub record Agent : Type 0 where
  pub key : String
  pub display_name : String
  pub role : String
  pub status : AgentStatus
  pub level : ℕ
  pub xp : ℕ
  pub current_mission_id : Option ℕ
  pub capabilities : List String
  pub permissions : List String
