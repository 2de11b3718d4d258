-- ===== src/Recovery/Policy.antt =====
-- recovery/policy.py: what to do after one observation of the watched system.
-- `casefold` stands for Python's method of that name.
use ai_hq.Prelude.{
  ℕ, String, Bool, true, false, ◌||◌, ◌&&◌, not, Option, none, some, ltb, if◌then◌else◌, str_eq,
}
use ai_hq.Json.{Json, Fields, bool, obj, get_field}

pub data RecoveryAction : Type 0 where
  observe diagnose recover escalate resolved : RecoveryAction

pub record RecoveryDecision : Type 0 where
  pub action : RecoveryAction
  pub component : Option String
  pub reason : String

pub record RecoveryComponent : Type 0 where
  pub key : String
  pub diagnostic_target : String
  pub recoverable : Bool

abbrev recoverable_component : String → String → Option RecoveryComponent
recoverable_component key target =
    some (record { key = key; diagnostic_target = target; recoverable = true })

-- `RECOVERY_COMPONENTS.get(component)`
unfoldable pub recovery_component : String → Option RecoveryComponent
recovery_component component =
    if str_eq component "app"
    then recoverable_component "app" "dripvid-app"
    else if str_eq component "mcp"
    then recoverable_component "mcp" "dripvid-mcp"
    else if str_eq component "proxy"
    then recoverable_component "proxy" "dripvid-proxy"
    else if str_eq component "tunnel"
    then recoverable_component "tunnel" "dripvid-tunnel"
    else if str_eq component "database"
    then recoverable_component "database" "dripvid-database"
    else none

-- `d.get(key) is True` and `d.get(key) is False`
unfoldable pub is_bool : Bool → Option Json → Bool
is_bool true (some (bool b)) = b
is_bool false (some (bool b)) = not b
is_bool _ _ = false

abbrev pub decision_for : RecoveryAction → Option String → String → RecoveryDecision
decision_for action component reason = record {
  action = action;
  component = component;
  reason = reason;
}

-- `_storage_decision`, in three parts: the branches on a mapping, what is no mapping, the lookup.
unfoldable pub judge_storage : Fields → Fields → Option RecoveryDecision
unfolding is_bool get_field
judge_storage readiness storage =
    if is_bool false (get_field "available" storage)
    then some (decision_for escalate none "storage_unavailable")
    else if is_bool false (get_field "writable" storage)
    then some (decision_for escalate none "storage_unwritable")
    else if is_bool true (get_field "ok" readiness)
        && is_bool true (get_field "belowReserve" storage)
    then some (decision_for observe none "storage_below_reserve")
    else none

unfoldable pub judge_value : Fields → Json → Option RecoveryDecision
judge_value readiness (obj storage) = judge_storage readiness storage
judge_value readiness _ = none

unfoldable pub storage_decision : Fields → Option RecoveryDecision
unfolding judge_value
storage_decision readiness = elim (get_field "storage" readiness) [
  | none ↦ none
  | some value ↦ judge_value readiness value
]

abbrev pub state_text : (String → String) → Option String → String
state_text casefold none = casefold ""
state_text casefold (some s) = casefold s

abbrev pub is_down : String → Bool
is_down state = str_eq state "inactive" || str_eq state "failed"

abbrev pub is_running : String → Bool
is_running state = str_eq state "active" || str_eq state "running"

-- The branches on the state of a service that may be recovered.
unfoldable pub judge_service : Fields → String → String → RecoveryDecision
unfolding is_bool get_field
judge_service readiness component state =
    if str_eq component "database"
    then (if is_down state
        then decision_for recover (some "database") "database_service_inactive_or_failed"
        else if is_running state && is_bool false (get_field "database" readiness)
        then decision_for escalate (some "database") "database_running_but_unhealthy"
        else decision_for diagnose (some "database") "database_state_requires_diagnosis")
    else if is_down state
    then decision_for recover (some component) "service_inactive_or_failed"
    else if is_running state
    then decision_for diagnose (some component) "service_running_readiness_failed"
    else decision_for diagnose (some component) "service_state_uncertain"

abbrev pub is_recoverable : Option RecoveryComponent → Bool
is_recoverable none = false
is_recoverable (some c) = c.recoverable

unfoldable pub judge_component : Fields → String → Option String → RecoveryDecision
unfolding judge_service recovery_component
judge_component readiness state none = decision_for diagnose none "component_not_identified"
judge_component readiness state (some component) =
    if not (is_recoverable (recovery_component component))
    then decision_for escalate none "unknown_component"
    else judge_service readiness component state

unfoldable pub decide_recovery :
    (String → String) → Option String → Option String → ℕ → ℕ → Fields → RecoveryDecision
unfolding storage_decision judge_component
decide_recovery casefold component service_state failures threshold readiness =
    elim (storage_decision readiness) [
      | some decision ↦ decision
      | none ↦
          if is_bool true (get_field "ok" readiness)
          then decision_for resolved none "readiness_healthy"
          else if ltb failures threshold
          then decision_for observe component "failure_threshold_not_met"
          else judge_component readiness (state_text casefold service_state) component
    ]
