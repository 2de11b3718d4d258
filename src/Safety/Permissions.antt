-- ===== src/Safety/Permissions.antt =====
-- safety/policy.py: what the decision permits, stated without the order of the code's tests.
use ai_hq.Prelude.{ℕ, ◌≤◌, Bool, true, false, ◌≡◌, ◌≢◌, ◌↔◌, refl, arith}
use ai_hq.Tables.Missions.{green, blue, amber, red}
use ai_hq.Tables.System.{OperatingMode, normal, safe, freeze}
use ai_hq.Safety.Policy.{
  Decision, allow, require_approval, simulate_only, block, ActionIntent, evaluate_action,
}

-- When an action may run for real.
pub record MayRun (i : ActionIntent) (mode : OperatingMode) (simulation_mode : Bool) : Type 0 where
  pub authorised : i.authorization_available ≡ true
  pub thawed : mode ≢ freeze
  pub not_red : i.risk ≢ red
  pub mutation : i.mutates_external_state ≡ true → (mode ≡ normal) × (simulation_mode ≡ false)
  pub green_consent : i.risk ≡ green → i.mutates_external_state ≡ true → i.approved ≡ true
  pub blue_consent : i.risk ≡ blue → i.scoped_rule_allows ≡ true
  pub amber_consent : i.risk ≡ amber → i.approved ≡ true

-- An action is allowed exactly if it is authorised, the system is not frozen, its risk is not red,
-- a mutation runs in normal mode outside simulation, a green mutation and every amber action is
-- approved, and a blue action has `scoped_rule_allows`, which the safety service sets for a rule or
-- an approval.
pub allow_iff :
    (i : ActionIntent) (mode : OperatingMode) (simulation_mode : Bool)
    → (evaluate_action i mode simulation_mode ≡ allow) ↔ MayRun i mode simulation_mode
unfolding evaluate_action
allow_iff i mode simulation_mode = (λ h. ground arith, λ h. ground arith)

-- How strict a decision is.
abbrev pub strictness : Decision → ℕ
strictness allow = 0
strictness simulate_only = 1
strictness require_approval = 2
strictness block = 3

-- How strict an operating mode is.
abbrev pub mode_strictness : OperatingMode → ℕ
mode_strictness normal = 0
mode_strictness safe = 1
mode_strictness freeze = 2

-- The same action, with no less consent and no less authority.
pub record GrantsMore (i j : ActionIntent) : Type 0 where
  pub risk : i.risk ≡ j.risk
  pub mutates : i.mutates_external_state ≡ j.mutates_external_state
  pub rule : i.scoped_rule_allows ≡ true → j.scoped_rule_allows ≡ true
  pub approval : i.approved ≡ true → j.approved ≡ true
  pub authority : i.authorization_available ≡ true → j.authorization_available ≡ true

pub grant_monotone :
    (i j : ActionIntent) (mode : OperatingMode) (simulation_mode : Bool)
    → GrantsMore i j
    → strictness (evaluate_action j mode simulation_mode)
      ≤ strictness (evaluate_action i mode simulation_mode)
unfolding evaluate_action
grant_monotone i j mode simulation_mode g = ground arith

pub mode_monotone :
    (i : ActionIntent) (mode mode' : OperatingMode) (simulation_mode : Bool)
    → mode_strictness mode ≤ mode_strictness mode'
    → strictness (evaluate_action i mode simulation_mode)
      ≤ strictness (evaluate_action i mode' simulation_mode)
unfolding evaluate_action
mode_monotone i mode mode' simulation_mode le = ground arith

pub simulation_monotone :
    (i : ActionIntent) (mode : OperatingMode)
    → strictness (evaluate_action i mode false) ≤ strictness (evaluate_action i mode true)
unfolding evaluate_action
simulation_monotone i mode = ground arith

-- The decision never becomes stricter when the action gains consent or authority, the operating
-- mode is relaxed and simulation is not switched on.
pub evaluate_action_monotone :
    (i j : ActionIntent) (mode mode' : OperatingMode) (sim sim' : Bool)
    → GrantsMore i j
    → mode_strictness mode' ≤ mode_strictness mode
    → (sim' ≡ true → sim ≡ true)
    → strictness (evaluate_action j mode' sim') ≤ strictness (evaluate_action i mode sim)
evaluate_action_monotone i j mode mode' sim sim' g le s =
    omega
      (arith, grant_monotone i j mode sim g, mode_monotone j mode' mode sim le, relax sim sim' s)
  where
    relax :
        (sim sim' : Bool)
        → (sim' ≡ true → sim ≡ true)
        → strictness (evaluate_action j mode' sim') ≤ strictness (evaluate_action j mode' sim)
    relax true true s = omega arith
    relax true false s = simulation_monotone j mode'
    relax false true s = cc (s refl)
    relax false false s = omega arith
