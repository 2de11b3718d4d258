-- ===== src/Operations/Consent.antt =====
-- operations/bootstrap.py: the consent behind what the operational adapters change.
use ai_hq.Prelude.{ℕ, false, ◌≡◌, ◌≢◌, ◌⊎◌}
use ai_hq.Tables.{Db}
use ai_hq.Tables.Missions.{red}
use ai_hq.Tables.System.{normal}
use ai_hq.Tools.{ToolRequest}
use ai_hq.Safety.Service.{SafetyService, system_state}
use ai_hq.Gateway.Service.{ToolGateway}
use ai_hq.Gateway.Consent.{Approved, Covered}
use ai_hq.Operations.Targets.{OperationalTargetRegistry}
use ai_hq.Operations.Adapters.{OperationalTransport}
use ai_hq.Operations.Bootstrap.{build_operational_tool_registry}

module _ (targets : OperationalTargetRegistry) (transport : OperationalTransport) where
  -- The gateway in operation.
  abbrev pub operational_gateway : SafetyService → ToolGateway
  operational_gateway safety = record {
    registry = build_operational_tool_registry targets transport;
    safety = safety;
  }

  -- What a person has agreed to, and the state of the system.
  abbrev pub HasConsent : SafetyService → (ℕ → ℕ) → ToolRequest → Db → Type 0
  HasConsent safety clock r db =
      ((system_state db).0 ≡ normal)
      × ((system_state db).1 ≡ false)
      × (r.risk ≢ red)
      × (Approved (operational_gateway safety) clock r db
          ⊎ Covered (operational_gateway safety) clock r db)
