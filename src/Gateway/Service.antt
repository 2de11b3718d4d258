-- ===== src/Gateway/Service.antt =====
-- tool_gateway/service.py: checking a request, running its adapter, recording what happened.
-- A call reads the clock several times: `clock n` is its n-th reading. An adapter may raise
-- `ToolAdapterError` and nothing else.
use ai_hq.Prelude.{
  ℕ, String, Bool, true, false, not, Option, none, some, if◌then◌else◌, [], ◌∷◌, ◌++◌, str_eq, any,
}
use Prim.Native.String.{◌++◌ as text_append}
use ai_hq.Prelude.Result.{ok, err}
use ai_hq.Prelude.Rows.{find}
use ai_hq.Json.{Fields, bool, text, obj, end, field}
use ai_hq.Tables.{Db}
use ai_hq.Tables.Ledger.{tool_executed, result_recorded}
use ai_hq.Tables.System.{Agent}
use ai_hq.Tools.{
  ToolOutcomeState, blocked, waiting_approval, simulated, executed, failed, ToolRequest,
  ToolOutcome, ToolAdapter, ToolRegistry, resolve,
}
use ai_hq.Ledger.{add_to_session}
use ai_hq.Approvals.Rules.{consume_rule}
use ai_hq.Safety.Policy.{Decision, allow, require_approval, simulate_only, block}
use ai_hq.Safety.Service.{SafetyService, SafetyResult, ProposedAction, evaluate}

pub record ToolGateway : Type 0 where
  pub registry : ToolRegistry
  pub safety : SafetyService

abbrev is_agent : String → Agent → Bool
is_agent key a = str_eq a.key key

-- `_has_exact_permission`
unfoldable pub has_exact_permission : String → String → Db → Bool
unfolding find
has_exact_permission agent_key capability db = elim (find (is_agent agent_key) db.agents) [
  | none ↦ false
  | some agent ↦ any (λ p. str_eq p capability) agent.permissions
]

unfoldable pub state_value : ToolOutcomeState → String
state_value blocked = "blocked"
state_value waiting_approval = "waiting_approval"
state_value simulated = "simulated"
state_value executed = "executed"
state_value failed = "failed"

-- `_record_result`
unfoldable pub log_result : ToolRequest → ToolOutcomeState → Db → Db
unfolding add_to_session state_value
log_result r state db =
    add_to_session r.mission_id (some r.agent_key) result_recorded
      (text_append "Tool capability "
        (text_append r.capability (text_append " finished as " (state_value state))))
      (field "capability" (text r.capability)
        (field "target" (text r.target) (field "state" (text (state_value state)) end)))
      db

unfoldable pub log_executed : ToolRequest → Db → Db
unfolding add_to_session
log_executed r db =
    add_to_session r.mission_id (some r.agent_key) tool_executed
      (text_append "Executed tool capability " r.capability)
      (field "capability" (text r.capability) (field "target" (text r.target) end)) db

abbrev pub outcome_of :
    ToolOutcomeState → ToolRequest → Option Fields → Option String → Option ℕ → ToolOutcome
outcome_of state r result reason request_id = record {
  state = state;
  capability = r.capability;
  result = result;
  reason = reason;
  approval_request_id = request_id;
}

-- What the gateway asks the safety service.
unfoldable pub action_of : ToolRequest → Bool → ProposedAction
action_of r authorized = record {
  mission_id = r.mission_id;
  agent_key = r.agent_key;
  action = r.capability;
  target = r.target;
  risk = r.risk;
  action_plan = obj (
      field "capability" (text r.capability)
        (field "target" (text r.target) (field "params" (obj r.params) end)));
  conditions = obj r.conditions;
  mutates_external_state = r.mutates_external_state;
  authorization_available = authorized;
}

-- The request goes out to the adapter.
abbrev pub log_call : ToolRequest → Db → Db
log_call r db = record db { calls = db.calls ++ r ∷ [] }

unfoldable pub run_adapter : ToolAdapter → ToolRequest → Db → ToolOutcome × Db
unfolding log_result log_executed
run_adapter adapter r db = elim (adapter.execute db.calls r) [
  | none ↦
      (outcome_of failed r none (some "adapter_failed") none, log_result r failed (log_call r db))
  | some result ↦ (
    outcome_of executed r (some result) none none,
    log_result r executed (log_executed r (log_call r db)),
  )
]

-- The allowed request: a mutation uses up one execution of the scoped rule that covers it. The
-- first argument is `request.mutates_external_state`.
unfoldable pub proceed : Bool → ℕ → ToolAdapter → ToolRequest → Option ℕ → Db → ToolOutcome × Db
proceed true now adapter r (some rule_id) db = elim (consume_rule now rule_id db).0 [
  | err e ↦ (
    outcome_of blocked r none (some "scoped_rule_consumption_failed") none,
    log_result r blocked (consume_rule now rule_id db).1,
  )
  | ok rule ↦ run_adapter adapter r (consume_rule now rule_id db).1
]
proceed _ now adapter r _ db = run_adapter adapter r db

-- What follows the decision.
unfoldable pub act :
    ℕ → ToolAdapter → ToolRequest → Bool → SafetyResult → Decision → Db → ToolOutcome × Db
unfolding proceed
act now adapter r authorized safety block db = (
  outcome_of blocked r none
      (some (if not authorized then "permission_denied" else "safety_blocked")) none,
  db,
)
act now adapter r authorized safety require_approval db =
    (outcome_of waiting_approval r none (some "approval_required") safety.approval_request_id, db)
act now adapter r authorized safety simulate_only db = (
  outcome_of simulated r (some (field "simulated" (bool true) end)) none none,
  log_result r simulated db,
)
act now adapter r authorized safety allow db =
    proceed r.mutates_external_state now adapter r safety.scoped_rule_id db

unfoldable pub execute : ToolGateway → (ℕ → ℕ) → ToolRequest → Db → ToolOutcome × Db
unfolding act
execute gateway clock r db = elim (resolve gateway.registry r.capability) [
  | none ↦ (outcome_of blocked r none (some "adapter_unavailable") none, db)
  | some adapter ↦
      let authorized = has_exact_permission r.agent_key r.capability db in
      let (safety, db') = evaluate gateway.safety clock (action_of r authorized) db in
      act (clock 4) adapter r authorized safety safety.decision db'
]
