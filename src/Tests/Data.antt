-- ===== src/Tests/Data.antt =====
-- The tables that the examples start from: two agents, a mission with an approved request, a
-- mission that has failed, and a scoped rule.
use ai_hq.Prelude.{ℕ, ◌+◌, String, true, false, none, some, [], ◌∷◌}
use ai_hq.Json.{Json, text, obj, end, field}
use ai_hq.Tables.{Db}
use ai_hq.Tables.Missions.{
  Mission, MissionStatus, MissionStep, MissionStepStatus, blue, amber, normal,
}
use ai_hq.Tables.System.{OperatingMode, Agent, idle}
use ai_hq.Tables.Approvals.{ApprovalRequest, approved, ScopedApprovalRule}
use ai_hq.Tools.{ToolRequest, ToolAdapter}
use ai_hq.Safety.Service.{SafetyService}
use ai_hq.Gateway.Service.{ToolGateway}

-- A digest that keeps the action's name.
abbrev pub sample_digest : Json → String
sample_digest j = elim j [
  | obj fs ↦ (elim fs [ end ↦ "" | field k v r ↦ (elim v [ text s ↦ s | _ ↦ "" ]) ])
  | _ ↦ ""
]

abbrev pub mission_at : ℕ → MissionStatus → Mission
mission_at id status = record {
  id = id;
  title = "Recover";
  description = "Recover the service";
  owner_agent = "sysadmin";
  source = "hq";
  priority = normal;
  risk = amber;
  status = status;
  objectives = [];
  dependencies = [];
  result = none;
  error_state = none;
  xp_reward = 0;
  lease_owner = none;
  lease_expires_at = none;
  attempt_count = 0;
  created_at = id;
  approval_references = [];
}

abbrev pub step_at : ℕ → ℕ → ℕ → MissionStepStatus → MissionStep
step_at id mission_id position status = record {
  id = id;
  mission_id = mission_id;
  position = position;
  description = "Restart";
  tool_name = "service.recover";
  tool_arguments = end;
  status = status;
  result = none;
  error_state = none;
  approval_reference = none;
}

abbrev pub request_at : ℕ → ApprovalRequest
request_at id = record {
  id = id;
  mission_id = 1;
  requester_agent = "sysadmin";
  action = "service.recover";
  target = "dripvid";
  risk = amber;
  action_plan = obj end;
  action_fingerprint = "service.recover";
  state = approved;
  expires_at = 100;
  decided_at = some 5;
}

abbrev pub rule_at : ℕ → ScopedApprovalRule
rule_at id = record {
  id = id;
  action = "service.recover";
  target = "dripvid";
  risk = blue;
  conditions = obj end;
  expires_at = 100;
  max_execution_count = some 2;
  execution_count = 1;
}

abbrev pub sysadmin : Agent
sysadmin = record {
  key = "sysadmin";
  display_name = "SysAdmin";
  role = "Restricted infrastructure observation specialist";
  status = idle;
  level = 1;
  xp = 0;
  current_mission_id = none;
  capabilities = "logs.read" ∷ [];
  permissions = "service.recover" ∷ [];
}

abbrev pub base : Db
base = record {
  missions = mission_at 1 MissionStatus.running ∷ mission_at 2 MissionStatus.failed ∷ [];
  steps = [];
  requests = request_at 3 ∷ [];
  rules = rule_at 4 ∷ [];
  events = [];
  agents = sysadmin ∷ [];
  system_state =
      some (record { operating_mode = some OperatingMode.normal; simulation_mode = false });
  next_id = 10;
  calls = [];
  deliveries = [];
}

abbrev pub recover : ToolRequest
recover = record {
  mission_id = 1;
  agent_key = "sysadmin";
  capability = "service.recover";
  target = "dripvid";
  risk = amber;
  params = end;
  conditions = end;
  mutates_external_state = true;
}

abbrev pub safety_service : SafetyService
safety_service = record { digest = sample_digest; approval_lifetime = 60 }

abbrev pub recover_adapter : ToolAdapter
recover_adapter = record { capability = "service.recover"; execute = λ calls r. some end }

abbrev pub gateway : ToolGateway
gateway = record { registry = record { adapters = recover_adapter ∷ [] }; safety = safety_service }

-- A clock that advances by one second with each reading.
abbrev pub clock_from : ℕ → ℕ → ℕ
clock_from start n = start + n
