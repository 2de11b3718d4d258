-- ===== src/Tools.antt =====
-- tool_gateway/contracts.py and tool_gateway/registry.py: requests, outcomes and the registry of
-- adapters. What an adapter does outside this program is a parameter: its answer may depend on
-- every request that adapters were given before.
use ai_hq.Prelude.{ℕ, String, Bool, Option, none, some, List, [], ◌∷◌, str_eq, if◌then◌else◌}
use ai_hq.Json.{Fields}
use ai_hq.Tables.Missions.{MissionRisk}

pub data ToolOutcomeState : Type 0 where
  blocked waiting_approval simulated executed failed : ToolOutcomeState

pub record ToolRequest : Type 0 where
  pub mission_id : ℕ
  pub agent_key : String
  pub capability : String
  pub target : String
  pub risk : MissionRisk
  pub params : Fields
  pub conditions : Fields
  pub mutates_external_state : Bool

pub record ToolOutcome : Type 0 where
  pub state : ToolOutcomeState
  pub capability : String
  pub result : Option Fields
  pub reason : Option String
  pub approval_request_id : Option ℕ

-- `none` is a `ToolAdapterError`.
pub record ToolAdapter : Type 0 where
  pub capability : String
  pub execute : List ToolRequest → ToolRequest → Option Fields

-- The dict `_adapters`; its keys are the capabilities of its values.
pub record ToolRegistry : Type 0 where
  pub adapters : List ToolAdapter

unfoldable pub find_adapter : String → List ToolAdapter → Option ToolAdapter
find_adapter k [] = none
find_adapter k (a ∷ as') =
    let rest = find_adapter k as' in if str_eq a.capability k then some a else rest

unfoldable pub resolve : ToolRegistry → String → Option ToolAdapter
unfolding find_adapter
resolve r capability = find_adapter capability r.adapters
