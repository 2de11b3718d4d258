-- ===== src/Missions/Lifecycle.antt =====
-- missions/service.py: creating a mission, reading it, and moving it between its statuses.
-- The ledger is always given, as every builder of the service does.
use ai_hq.Prelude.{
  ℕ, suc, String, Bool, ◌&&◌, ◌||◌, Option, none, some, List, [], ◌∷◌, ◌++◌, ◌==◌, ltb,
  if◌then◌else◌,
}
use Prim.Native.String.{◌++◌ as text_append}
use ai_hq.Prelude.Result.{Exec, ok, err, key_error, value_error, require_some}
use ai_hq.Prelude.Rows.{find, where_rows, update_where, first_by, order_by}
use ai_hq.Json.{Json, Fields, text, end, field}
use ai_hq.Tables.{Db}
use ai_hq.Tables.Ledger.{mission_created, mission_status_changed}
use ai_hq.Tables.Missions.{
  Mission, MissionStatus, MissionPriority, MissionRisk, same_status, low, normal, high, critical,
  green, blue, amber, red,
}
use ai_hq.Ledger.{add_to_session}
use ai_hq.Missions.Transitions.{allowed_transition}

-- The values of the enumerations, as the ledger records them.
unfoldable pub status_value : MissionStatus → String
status_value MissionStatus.queued = "QUEUED"
status_value MissionStatus.running = "RUNNING"
status_value MissionStatus.waiting_approval = "WAITING_APPROVAL"
status_value MissionStatus.paused = "PAUSED"
status_value MissionStatus.completed = "COMPLETED"
status_value MissionStatus.failed = "FAILED"
status_value MissionStatus.cancelled = "CANCELLED"

unfoldable pub priority_value : MissionPriority → String
priority_value low = "low"
priority_value normal = "normal"
priority_value high = "high"
priority_value critical = "critical"

unfoldable pub risk_value : MissionRisk → String
risk_value green = "green"
risk_value blue = "blue"
risk_value amber = "amber"
risk_value red = "red"

abbrev pub has_id : ℕ → Mission → Bool
has_id mission_id m = m.id == mission_id

-- `db.get(Mission, mission_id)`
unfoldable pub mission_row : ℕ → Db → Option Mission
unfolding find
mission_row mission_id db = find (has_id mission_id) db.missions

-- The flush of a changed row.
unfoldable pub put_mission : Mission → Db → Db
unfolding update_where
put_mission m db = record db { missions = update_where (has_id m.id) (λ _. m) db.missions }

pub record NewMission : Type 0 where
  pub title : String
  pub description : String
  pub owner_agent : String
  pub source : String
  pub priority : MissionPriority
  pub risk : MissionRisk
  pub objectives : List Json
  pub dependencies : List Json
  pub xp_reward : ℕ

abbrev mission_from : ℕ → ℕ → NewMission → Mission
mission_from id now n = record {
  id = id;
  title = n.title;
  description = n.description;
  owner_agent = n.owner_agent;
  source = n.source;
  priority = n.priority;
  risk = n.risk;
  status = MissionStatus.queued;
  objectives = n.objectives;
  dependencies = n.dependencies;
  result = none;
  error_state = none;
  xp_reward = n.xp_reward;
  lease_owner = none;
  lease_expires_at = none;
  attempt_count = 0;
  created_at = now;
  approval_references = [];
}

unfoldable pub create_mission : ℕ → NewMission → Exec Db Mission
unfolding add_to_session status_value priority_value risk_value
create_mission now new db =
    let mission : Mission = mission_from db.next_id now new in
    (
      ok mission,
      add_to_session mission.id (some mission.owner_agent) mission_created "Mission created"
          (field "source" (text mission.source) (
            field "priority" (text (priority_value mission.priority)) (
              field "risk" (text (risk_value mission.risk))
                (field "status" (text (status_value mission.status)) end))))
          (record db { missions = db.missions ++ mission ∷ []; next_id = suc db.next_id }),
    )

unfoldable pub get_mission : ℕ → Exec Db Mission
unfolding mission_row
get_mission mission_id db =
    require_some (mission_row mission_id db) (key_error "mission not found") db

-- `ORDER BY created_at, id`
abbrev pub created_before : Mission → Mission → Bool
created_before x y =
    ltb x.created_at y.created_at || (x.created_at == y.created_at && ltb x.id y.id)

unfoldable pub list_missions : Db → List Mission
unfolding order_by
list_missions db = order_by created_before db.missions

unfoldable pub oldest_queued : Db → Option Mission
unfolding first_by where_rows
oldest_queued db =
    first_by created_before
      (where_rows (λ m. same_status m.status MissionStatus.queued) db.missions)

unfoldable pub record_result : ℕ → Fields → Exec Db Mission
unfolding mission_row put_mission
record_result mission_id result db = elim (mission_row mission_id db) [
  | none ↦ (err (key_error "mission not found"), db)
  | some mission ↦
      let changed : Mission = record mission { result = some result } in
      (ok changed, put_mission changed db)
]

unfoldable pub assign_owner : ℕ → String → Exec Db Mission
unfolding mission_row put_mission
assign_owner mission_id owner_agent db = elim (mission_row mission_id db) [
  | none ↦ (err (key_error "mission not found"), db)
  | some mission ↦
      let changed : Mission = record mission { owner_agent = owner_agent } in
      if same_status mission.status MissionStatus.queued
      then (ok changed, put_mission changed db)
      else (err (value_error "mission must be queued before owner assignment"), db)
]

-- `if value is not None: row.field = value`
abbrev pub or_old {ℓ} : {A : Type ℓ} → Option A → Option A → Option A
or_old none old = old
or_old (some new) old = some new

unfoldable pub moved : MissionStatus → Option Fields → Option Fields → Mission → Mission
moved target result error_state m = record m {
  status = target;
  result = or_old result m.result;
  error_state = or_old error_state m.error_state;
}

-- The event that a transition adds to the ledger.
unfoldable pub status_change : MissionStatus → Mission → Db → Db
unfolding add_to_session status_value
status_change target mission db =
    add_to_session mission.id (some mission.owner_agent) mission_status_changed
      (text_append "Mission status changed to " (status_value target))
      (field "from" (text (status_value mission.status))
        (field "to" (text (status_value target)) end))
      db

unfoldable pub transition : ℕ → MissionStatus → Option Fields → Option Fields → Exec Db Mission
unfolding mission_row put_mission allowed_transition moved status_change
transition mission_id target result error_state db = elim (mission_row mission_id db) [
  | none ↦ (err (key_error "mission not found"), db)
  | some mission ↦
      let changed : Mission = moved target result error_state mission in
      if allowed_transition mission.status target
      then (ok changed, status_change target mission (put_mission changed db))
      else (err (value_error "invalid mission transition"), db)
]
