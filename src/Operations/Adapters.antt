-- ===== src/Operations/Adapters.antt =====
-- operations/adapters.py: what each adapter checks before it asks the transport.
-- The transport is a parameter: which of its optional methods it has, and what it answers. It fails
-- only by `ToolAdapterError`.
use ai_hq.Prelude.{
  ℕ, String, Bool, true, false, not, ◌&&◌, ◌||◌, Option, none, some, List, if◌then◌else◌, str_eq,
  all, ltb,
}
use ai_hq.Prelude.Result.{Result, ok, err, adapter_error}
use ai_hq.Json.{Json, Fields, num, text, get_field, keys, end, field}
use ai_hq.Tools.{ToolRequest, ToolAdapter}
use ai_hq.Recovery.Policy.{recovery_component}
use ai_hq.Recovery.Bounded.{text_length}
use ai_hq.Operations.Targets.{OperationalTarget, OperationalTargetRegistry, allows, resolve_target}
use ai_hq.Operations.Texts.{is_ascii, all_chars, is_release_char}

-- The adapter classes.
pub data OperationalAdapter : Type 0 where
  system_health service_status service_logs service_restart : OperationalAdapter
  service_recover deployment_deploy deployment_rollback : OperationalAdapter

-- The class attribute `capability`.
unfoldable pub capability_of : OperationalAdapter → String
capability_of system_health = "system.health.read"
capability_of service_status = "service.status.read"
capability_of service_logs = "service.logs.read"
capability_of service_restart = "service.restart"
capability_of service_recover = "service.recover"
capability_of deployment_deploy = "deployment.deploy"
capability_of deployment_rollback = "deployment.rollback"

-- A call of the transport.
pub data TransportCall : Type 0 where
  read_health : OperationalTarget → TransportCall
  read_status : OperationalTarget → TransportCall
  read_logs : OperationalTarget → ℕ → TransportCall
  restart : OperationalTarget → TransportCall
  recover_component : OperationalTarget → String → TransportCall
  deploy : OperationalTarget → TransportCall
  roll_back : OperationalTarget → String → TransportCall

pub record OperationalTransport : Type 0 where
  pub has_service_recover : Bool
  pub has_deployment_deploy : Bool
  pub has_deployment_rollback : Bool
  pub answer : List ToolRequest → TransportCall → Option Fields

-- `_OperationalAdapter._target`
unfoldable pub target_of :
    OperationalAdapter → OperationalTargetRegistry → ToolRequest → Result OperationalTarget
unfolding resolve_target capability_of
target_of adapter targets r =
    if not (str_eq r.capability (capability_of adapter))
    then err (adapter_error "capability_mismatch")
    else elim (resolve_target targets r.target) [
      | none ↦ err (adapter_error "unknown_operational_target")
      | some target ↦
          if not (allows target (capability_of adapter))
          then err (adapter_error "target_capability_denied")
          else ok target
    ]

abbrev pub is_end : Fields → Bool
is_end end = true
is_end (field k v fs) = false

abbrev pub when : Bool → String → Result TransportCall → Result TransportCall
when true message call = call
when false message call = err (adapter_error message)

-- `request.params.get("lines", DEFAULT_LOG_LINES)`, and the checks on it.
unfoldable pub log_lines : OperationalTarget → Option Json → Result TransportCall
log_lines target none = ok (read_logs target 100)
log_lines target (some (num n)) =
    if ltb n 1 || ltb 500 n
    then err (adapter_error "invalid_log_line_count")
    else ok (read_logs target n)
log_lines target (some _) = err (adapter_error "invalid_log_line_count")

-- `set(params) == {key}`
unfoldable pub has_only : String → Fields → Bool
unfolding keys
has_only key fs = not (is_end fs) && all (λ k. str_eq k key) (keys fs)

abbrev pub is_known : String → Bool
is_known component = elim (recovery_component component) [ none ↦ false | some c ↦ true ]

unfoldable pub recover_call :
    OperationalTransport → OperationalTarget → Bool → Option Json → Result TransportCall
recover_call transport target mutates (some (text component)) =
    when (is_known component) "invalid_recovery_component" (
      when mutates "recovery_requires_mutation_flag" (
        when transport.has_service_recover "recovery_transport_unavailable"
          (ok (recover_component target component))))
recover_call transport target mutates _ = err (adapter_error "invalid_recovery_component")

-- What a release id must be.
unfoldable pub is_release_id : String → Bool
unfolding text_length all_chars is_release_char
is_release_id id =
    not (str_eq id "")
    && not (ltb 128 (text_length id))
    && is_ascii id
    && all_chars is_release_char id

unfoldable pub rollback_call :
    OperationalTransport → OperationalTarget → Bool → Option Json → Result TransportCall
unfolding is_release_id
rollback_call transport target mutates (some (text id)) =
    when (is_release_id id) "invalid_release_id" (
      when mutates "rollback_requires_mutation_flag" (
        when transport.has_deployment_rollback "deployment_transport_unavailable"
          (ok (roll_back target id))))
rollback_call transport target mutates _ = err (adapter_error "invalid_release_id")

-- `execute` of each class, once the target is found.
unfoldable pub call_for :
    OperationalAdapter
    → OperationalTransport
    → ToolRequest
    → OperationalTarget
    → Result TransportCall
unfolding log_lines has_only recover_call rollback_call get_field
call_for system_health transport r target =
    when (is_end r.params) "unexpected_operational_parameters" (ok (read_health target))
call_for service_status transport r target =
    when (is_end r.params) "unexpected_operational_parameters" (ok (read_status target))
call_for service_logs transport r target =
    when (all (λ k. str_eq k "lines") (keys r.params)) "unexpected_operational_parameters"
      (log_lines target (get_field "lines" r.params))
call_for service_restart transport r target =
    when (is_end r.params) "unexpected_operational_parameters"
      (when r.mutates_external_state "restart_requires_mutation_flag" (ok (restart target)))
call_for service_recover transport r target =
    when (str_eq target.key "dripvid") "recovery_target_denied" (
      when (has_only "component" r.params) "invalid_recovery_parameters"
        (recover_call transport target r.mutates_external_state (get_field "component" r.params)))
call_for deployment_deploy transport r target =
    when (is_end r.params) "unexpected_operational_parameters" (
      when r.mutates_external_state "deployment_requires_mutation_flag" (
        when transport.has_deployment_deploy "deployment_transport_unavailable"
          (ok (deploy target))))
call_for deployment_rollback transport r target =
    when (has_only "release_id" r.params) "invalid_rollback_parameters"
      (rollback_call transport target r.mutates_external_state (get_field "release_id" r.params))

-- The call that a request leads to, or the error.
unfoldable pub operate :
    OperationalAdapter
    → OperationalTargetRegistry
    → OperationalTransport
    → ToolRequest
    → Result TransportCall
unfolding target_of call_for
operate adapter targets transport r = elim (target_of adapter targets r) [
  | err e ↦ err e
  | ok target ↦ call_for adapter transport r target
]

-- The adapter as the gateway sees it.
unfoldable pub operational_adapter :
    OperationalAdapter → OperationalTargetRegistry → OperationalTransport → ToolAdapter
unfolding operate
operational_adapter adapter targets transport = record {
  capability = capability_of adapter;
  execute = λ calls r. elim (operate adapter targets transport r) [
    | err e ↦ none
    | ok call ↦ transport.answer calls call
  ];
}
