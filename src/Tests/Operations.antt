-- ===== src/Tests/Operations.antt =====
-- The operational adapters behind the gateway.
use ai_hq.Prelude.{true, false, none, some, [], ◌∷◌, ◌≡◌, refl}
use ai_hq.Prelude.Result.{ok}
use ai_hq.Json.{num, text, end, field}
use ai_hq.Tables.Missions.{green}
use ai_hq.Tools.{ToolRequest}
use ai_hq.Operations.Targets.{OperationalTarget, OperationalTargetRegistry, target_registry}
use ai_hq.Operations.Adapters.{
  service_logs, OperationalTransport, read_logs, operate, target_of, call_for,
}
use ai_hq.Operations.Safety.{IsSound, operate-IsSound}
use ai_hq.Tests.Data.{recover}

abbrev dripvid : OperationalTarget
dripvid = record {
  key = "dripvid";
  service_unit = "dripvid.service";
  allowed_capabilities = "service.logs.read" ∷ "service.recover" ∷ [];
  health_url = none;
  log_unit = none;
  deploy_entrypoint = none;
  rollback_entrypoint = none;
  host_helper_service_target = none;
  host_helper_log_target = none;
}

abbrev targets : OperationalTargetRegistry
targets = record { targets = dripvid ∷ [] }

targets_accepted : target_registry (dripvid ∷ []) ≡ ok targets
unfolding target_registry
targets_accepted = refl

abbrev transport : OperationalTransport
transport = record {
  has_service_recover = true;
  has_deployment_deploy = false;
  has_deployment_rollback = false;
  answer = λ calls call. some end;
}

abbrev read_request : ToolRequest
read_request = record recover {
  capability = "service.logs.read";
  risk = green;
  params = field "lines" (num 20) end;
  mutates_external_state = false;
}

logs_read : operate service_logs targets transport read_request ≡ ok (read_logs dripvid 20)
unfolding operate target_of call_for
logs_read = refl

operate-IsSound_example : IsSound service_logs targets read_request (read_logs dripvid 20)
operate-IsSound_example =
    operate-IsSound service_logs targets transport read_request (read_logs dripvid 20) logs_read

abbrev recover_app : ToolRequest
recover_app = record recover { params = field "component" (text "app") end }
