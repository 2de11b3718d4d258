-- ===== src/Safety/Service.antt =====
-- safety/service.py: gathering what the decision needs, recording it, and asking for approval.
-- A call reads the clock several times: `clock n` is its n-th reading.
use ai_hq.Prelude.{
  ℕ, ◌+◌, String, Bool, true, false, ◌&&◌, ◌||◌, not, Option, none, some, if◌then◌else◌,
}
use mathlib.Core.Option
use Prim.Native.String.{◌++◌ as text_append}
use ai_hq.Json.{Json, null, bool, num, text, end, field}
use ai_hq.Tables.{Db}
use ai_hq.Tables.Missions.{MissionRisk, MissionStatus}
use ai_hq.Tables.Ledger.{action_proposed, permission_checked, risk_checked, approval_recorded}
use ai_hq.Tables.System.{OperatingMode, normal, safe, freeze}
use ai_hq.Tables.Approvals.{ApprovalRequest, ScopedApprovalRule}
use ai_hq.Ledger.{add_to_session}
use ai_hq.Missions.Lifecycle.{risk_value}
use ai_hq.Approvals.Requests.{
  canonical_action_fingerprint, create_request, pending_for_fingerprint, is_approved,
}
use ai_hq.Approvals.Rules.{matching_scoped_rule}
use ai_hq.Safety.Policy.{
  Decision, allow, require_approval, simulate_only, block, ActionIntent, evaluate_action,
}

pub record SafetyResult : Type 0 where
  pub decision : Decision
  pub mission_status : MissionStatus
  pub action_fingerprint : String
  pub approval_request_id : Option ℕ
  pub scoped_rule_id : Option ℕ
  pub simulation_mode : Bool

-- The service: the digest behind its fingerprints, and `approval_lifetime`.
pub record SafetyService : Type 0 where
  pub digest : Json → String
  pub approval_lifetime : ℕ

-- The arguments of `evaluate`.
pub record ProposedAction : Type 0 where
  pub mission_id : ℕ
  pub agent_key : String
  pub action : String
  pub target : String
  pub risk : MissionRisk
  pub action_plan : Json
  pub conditions : Json
  pub mutates_external_state : Bool
  pub authorization_available : Bool

-- `_system_state`: the mode, whether the system simulates, and whether the row was readable.
unfoldable pub system_state : Db → OperatingMode × Bool × Bool
system_state db = elim db.system_state [
  | none ↦ (freeze, true, false)
  | some s ↦ elim s.operating_mode [
    | none ↦ (freeze, true, false)
    | some mode ↦ (mode, s.simulation_mode, true)
  ]
]

unfoldable pub mode_value : OperatingMode → String
mode_value normal = "normal"
mode_value safe = "safe"
mode_value freeze = "freeze"

unfoldable pub decision_value : Decision → String
decision_value allow = "allow"
decision_value require_approval = "require_approval"
decision_value simulate_only = "simulate_only"
decision_value block = "block"

abbrev pub id_value : Option ℕ → Json
id_value none = null
id_value (some n) = num n

abbrev pub is_some : Option ScopedApprovalRule → Bool
is_some none = false
is_some (some r) = true

-- `decision is Decision.REQUIRE_APPROVAL`
abbrev pub wants_approval : Decision → Bool
wants_approval require_approval = true
wants_approval _ = false

module _ (service : SafetyService) (a : ProposedAction) where
  unfoldable pub fingerprint_of : String
  unfolding canonical_action_fingerprint
  fingerprint_of = canonical_action_fingerprint service.digest a.action a.target a.action_plan

  unfoldable pub log_proposed : Db → Db
  unfolding add_to_session risk_value
  log_proposed db =
      add_to_session a.mission_id (some a.agent_key) action_proposed
        (text_append "Action proposed: " a.action)
        (field "action" (text a.action) (
          field "target" (text a.target) (
            field "risk" (text (risk_value a.risk)) (
              field "fingerprint" (text fingerprint_of)
                (field "mutates_external_state" (bool a.mutates_external_state) end)))))
        db

  unfoldable pub log_permission : Bool → Bool → Option ℕ → Db → Db
  unfolding add_to_session
  log_permission available approved rule_id db =
      add_to_session a.mission_id (some a.agent_key) permission_checked "Permission context checked"
        (field "authorization_available" (bool available)
          (field "approved" (bool approved) (field "scoped_rule_id" (id_value rule_id) end)))
        db

  unfoldable pub log_risk : OperatingMode → Bool → Decision → Db → Db
  unfolding add_to_session risk_value mode_value decision_value
  log_risk mode simulation_mode decision db =
      add_to_session a.mission_id (some a.agent_key) risk_checked
        (text_append "Safety decision: " (decision_value decision))
        (field "risk" (text (risk_value a.risk)) (
          field "operating_mode" (text (mode_value mode)) (
            field "simulation_mode" (bool simulation_mode)
              (field "decision" (text (decision_value decision)) end))))
        db

  unfoldable pub log_approval : ApprovalRequest → Db → Db
  unfolding add_to_session
  log_approval r db =
      add_to_session a.mission_id (some a.agent_key) approval_recorded "Approval requested"
        (field "approval_request_id" (num r.id)
          (field "state" (text "pending") (field "fingerprint" (text fingerprint_of) end)))
        db

module _ (service : SafetyService) (clock : ℕ → ℕ) (a : ProposedAction) where
  unfoldable pub approved_now : Db → Bool
  unfolding is_approved fingerprint_of
  approved_now db = is_approved (clock 0) a.mission_id (fingerprint_of service a) db

  unfoldable pub rule_now : Db → Option ScopedApprovalRule
  unfolding matching_scoped_rule
  rule_now db = matching_scoped_rule (clock 1) a.action a.target a.risk a.conditions db

  unfoldable pub intent_of : Db → ActionIntent
  unfolding approved_now rule_now system_state
  intent_of db = record {
    action = a.action;
    target = a.target;
    risk = a.risk;
    mutates_external_state = a.mutates_external_state;
    scoped_rule_allows = is_some (rule_now db) || approved_now db;
    approved = approved_now db;
    authorization_available = a.authorization_available && (system_state db).2;
  }

  unfoldable pub decision_of : Db → Decision
  unfolding intent_of evaluate_action system_state
  decision_of db = evaluate_action (intent_of db) (system_state db).0 (system_state db).1

  -- The three events that every evaluation records.
  unfoldable pub log_evaluation : Db → Db
  unfolding log_proposed log_permission log_risk intent_of decision_of system_state
  log_evaluation db = log_risk service a (system_state db).0 (system_state db).1 (decision_of db) (
      log_permission service a (intent_of db).authorization_available (approved_now db)
        (Option.map (λ r. r.id) (rule_now db)) (log_proposed service a db))

  -- The pending request for the action, or a new one.
  unfoldable pub ask_approval : Db → ApprovalRequest × Db
  unfolding pending_for_fingerprint create_request log_approval fingerprint_of
  ask_approval db =
      elim (pending_for_fingerprint (clock 2) a.mission_id (fingerprint_of service a) db) [
        | some p ↦ (p, db)
        | none ↦
            let (p, db') =
              create_request service.digest
                (record {
                  mission_id = a.mission_id;
                  requester_agent = a.agent_key;
                  action = a.action;
                  target = a.target;
                  risk = a.risk;
                  action_plan = a.action_plan;
                  expires_at = clock 3 + service.approval_lifetime;
                })
                db in
            (p, log_approval service a p db')
      ]

  unfoldable pub evaluate : Db → SafetyResult × Db
  unfolding log_evaluation decision_of rule_now system_state ask_approval fingerprint_of
  evaluate db =
      if not (wants_approval (decision_of db))
      then (
        record {
          decision = decision_of db;
          mission_status = MissionStatus.running;
          action_fingerprint = fingerprint_of service a;
          approval_request_id = none;
          scoped_rule_id = Option.map (λ r. r.id) (rule_now db);
          simulation_mode = (system_state db).1;
        },
        log_evaluation db,
      )
      else let (p, db') = ask_approval (log_evaluation db) in
        (
          record {
            decision = decision_of db;
            mission_status = MissionStatus.waiting_approval;
            action_fingerprint = fingerprint_of service a;
            approval_request_id = some p.id;
            scoped_rule_id = Option.map (λ r. r.id) (rule_now db);
            simulation_mode = (system_state db).1;
          },
          db',
        )
