-- ===== src/Safety/Policy.antt =====
-- safety/policy.py: the decision on an action intent.
use ai_hq.Prelude.{String, Bool, not, ◌&&◌, ◌||◌, if◌then◌else◌}
use ai_hq.Tables.Missions.{MissionRisk, same_risk, green, blue, amber, red}
use ai_hq.Tables.System.{OperatingMode, same_mode, safe, freeze}

pub data Decision : Type 0 where
  allow require_approval simulate_only block : Decision

pub record ActionIntent : Type 0 where
  pub action : String
  pub target : String
  pub risk : MissionRisk
  pub mutates_external_state : Bool
  pub scoped_rule_allows : Bool
  pub approved : Bool
  pub authorization_available : Bool

unfoldable pub evaluate_action : ActionIntent → OperatingMode → Bool → Decision
evaluate_action intent operating_mode simulation_mode =
    if not intent.authorization_available || same_mode operating_mode freeze
    then block
    else if same_risk intent.risk red
    then block
    else if same_mode operating_mode safe && intent.mutates_external_state
    then block
    else if same_risk intent.risk blue && not intent.scoped_rule_allows
    then require_approval
    else if same_risk intent.risk amber && not intent.approved
    then require_approval
    else if same_risk intent.risk green && intent.mutates_external_state && not intent.approved
    then require_approval
    else if intent.mutates_external_state && simulation_mode
    then simulate_only
    else allow
