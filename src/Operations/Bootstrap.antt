-- ===== src/Operations/Bootstrap.antt =====
-- operations/bootstrap.py: the registry of the gateway in operation. The capabilities of its
-- adapters are distinct and spell no pattern, so the constructor of `ToolRegistry` accepts them.
use ai_hq.Prelude.{List, [], ◌∷◌, map}
use ai_hq.Tools.{ToolAdapter, ToolRegistry}
use ai_hq.Operations.Targets.{OperationalTargetRegistry}
use ai_hq.Operations.Adapters.{
  OperationalAdapter, system_health, service_status, service_logs, service_restart, service_recover,
  deployment_deploy, deployment_rollback, OperationalTransport, operational_adapter,
}

abbrev pub adapter_classes : List OperationalAdapter
adapter_classes =
    system_health ∷ service_status ∷ service_logs ∷ service_restart ∷ service_recover
    ∷ deployment_deploy ∷ deployment_rollback ∷ []

abbrev pub operational_adapters :
    OperationalTargetRegistry → OperationalTransport → List ToolAdapter
operational_adapters targets transport =
    map (λ a. operational_adapter a targets transport) adapter_classes

unfoldable pub build_operational_tool_registry :
    OperationalTargetRegistry → OperationalTransport → ToolRegistry
unfolding operational_adapter
build_operational_tool_registry targets transport = record {
  adapters = operational_adapters targets transport;
}
