-- ===== src/Missions/Plan.antt =====
-- missions/service.py: the plan of a mission, and moving its steps between their statuses.
use ai_hq.Prelude.{
  ℕ, suc, ◌+◌, String, Bool, true, false, ◌&&◌, ◌||◌, not, Option, none, some, List, [], ◌∷◌, ◌++◌,
  ◌==◌, ltb, if◌then◌else◌, all, length,
}
use ai_hq.Prelude.Result.{Exec, ok, err, key_error, value_error}
use ai_hq.Prelude.Rows.{find, where_rows, update_where, row_count, first_by, order_by}
use ai_hq.Json.{Fields, end}
use ai_hq.Tables.{Db}
use ai_hq.Tables.Missions.{MissionStep, MissionStepStatus, same_step_status}
use ai_hq.Tools.{ToolRegistry, resolve}
use ai_hq.Missions.Transitions.{allowed_step_transition}
use ai_hq.Missions.Lifecycle.{mission_row, or_old}

-- An item of the argument `steps` of `create_plan`.
pub record PlannedStep : Type 0 where
  pub description : String
  pub tool_name : String
  pub tool_arguments : Option Fields

abbrev pub has_step_id : ℕ → MissionStep → Bool
has_step_id step_id s = s.id == step_id

abbrev pub of_mission : ℕ → MissionStep → Bool
of_mission mission_id s = s.mission_id == mission_id

-- `step.get("tool_arguments", {})`
abbrev pub or_empty : Option Fields → Fields
or_empty none = end
or_empty (some fs) = fs

-- `enumerate(steps, start=position)`, with the ids from `id` on.
unfoldable pub number_steps : ℕ → ℕ → ℕ → List PlannedStep → List MissionStep
number_steps mission_id position id [] = []
number_steps mission_id position id (s ∷ rest) =
    record {
      id = id;
      mission_id = mission_id;
      position = position;
      description = s.description;
      tool_name = s.tool_name;
      tool_arguments = or_empty s.tool_arguments;
      status = MissionStepStatus.pending;
      result = none;
      error_state = none;
      approval_reference = none;
    }
    ∷ number_steps mission_id (suc position) (suc id) rest

abbrev pub is_registered : ToolRegistry → PlannedStep → Bool
is_registered registry s = elim (resolve registry s.tool_name) [ none ↦ false | some a ↦ true ]

-- The loop over the steps when `tool_registry` is given.
unfoldable pub tools_registered : Option ToolRegistry → List PlannedStep → Bool
unfolding resolve
tools_registered none steps = true
tools_registered (some registry) steps = all (is_registered registry) steps

abbrev pub is_empty {ℓ} : {A : Type ℓ} → List A → Bool
is_empty [] = true
is_empty (x ∷ xs) = false

unfoldable pub create_plan : ℕ → List PlannedStep → Option ToolRegistry → Exec Db (List MissionStep)
unfolding tools_registered mission_row find number_steps
create_plan mission_id steps tool_registry db =
    if is_empty steps
    then (err (value_error "mission plan requires at least one step"), db)
    else if not (tools_registered tool_registry steps)
    then (err (value_error "unregistered mission tool"), db)
    else elim (mission_row mission_id db) [
      | none ↦ (err (key_error "mission not found"), db)
      | some mission ↦ elim (find (of_mission mission_id) db.steps) [
        | some existing ↦ (err (value_error "mission already has a plan"), db)
        | none ↦
            let planned : List MissionStep = number_steps mission.id 1 db.next_id steps in
            (
              ok planned,
              record db { steps = db.steps ++ planned; next_id = db.next_id + length steps },
            )
      ]
    ]

-- `ORDER BY position, id`
abbrev pub step_before : MissionStep → MissionStep → Bool
step_before x y = ltb x.position y.position || (x.position == y.position && ltb x.id y.id)

-- The first step of the mission in a status.
unfoldable pub first_step : (MissionStepStatus → Bool) → ℕ → Db → Option MissionStep
unfolding first_by where_rows
first_step test mission_id db =
    first_by step_before (where_rows (λ s. of_mission mission_id s && test s.status) db.steps)

abbrev pub is_pending : MissionStepStatus → Bool
is_pending s = same_step_status s MissionStepStatus.pending

abbrev pub is_waiting : MissionStepStatus → Bool
is_waiting s = same_step_status s MissionStepStatus.waiting_approval

abbrev pub is_incomplete : MissionStepStatus → Bool
is_incomplete s = not (same_step_status s MissionStepStatus.succeeded)

unfoldable pub next_pending_step : ℕ → Exec Db (Option MissionStep)
unfolding mission_row first_step
next_pending_step mission_id db = elim (mission_row mission_id db) [
  | none ↦ (err (key_error "mission not found"), db)
  | some mission ↦ (ok (first_step is_pending mission_id db), db)
]

-- The `WHERE` of the conditional update.
abbrev pub is_claimable : ℕ → MissionStep → Bool
is_claimable step_id s = has_step_id step_id s && is_pending s.status

abbrev pub set_running : MissionStep → MissionStep
set_running s = record s { status = MissionStepStatus.running }

-- The update and what follows it, for the id that the first query found.
unfoldable pub claim_step : ℕ → Db → Option MissionStep × Db
unfolding find update_where row_count
claim_step step_id db =
    let claimed : Db = record db {
      steps = update_where (is_claimable step_id) set_running db.steps;
    } in
    if row_count (is_claimable step_id) db.steps == 1
    then (find (has_step_id step_id) claimed.steps, claimed)
    else (none, db)

unfoldable pub claim_next_pending_step : ℕ → Db → Option MissionStep × Db
unfolding first_step claim_step
claim_next_pending_step mission_id db = elim (first_step is_incomplete mission_id db) [
  | none ↦ (none, db)
  | some first ↦ claim_step first.id db
]

unfoldable pub step_row : ℕ → Db → Option MissionStep
unfolding find
step_row step_id db = find (has_step_id step_id) db.steps

unfoldable pub moved_step :
    MissionStepStatus → Option Fields → Option Fields → Option ℕ → MissionStep → MissionStep
moved_step target result error_state approval_reference s = record s {
  status = target;
  result = or_old result s.result;
  error_state = or_old error_state s.error_state;
  approval_reference = or_old approval_reference s.approval_reference;
}

unfoldable pub transition_step :
    ℕ → MissionStepStatus → Option Fields → Option Fields → Option ℕ → Exec Db MissionStep
unfolding step_row update_where allowed_step_transition moved_step
transition_step step_id target result error_state approval_reference db =
    elim (step_row step_id db) [
      | none ↦ (err (key_error "mission step not found"), db)
      | some step ↦
          let changed : MissionStep =
            moved_step target result error_state approval_reference step in
          if allowed_step_transition step.status target
          then (
            ok changed,
            record db { steps = update_where (has_step_id step_id) (λ _. changed) db.steps },
          )
          else (err (value_error "invalid mission step transition"), db)
    ]

unfoldable pub list_plan_steps : ℕ → Exec Db (List MissionStep)
unfolding mission_row order_by where_rows
list_plan_steps mission_id db = elim (mission_row mission_id db) [
  | none ↦ (err (key_error "mission not found"), db)
  | some mission ↦ (ok (order_by step_before (where_rows (of_mission mission_id) db.steps)), db)
]

unfoldable pub waiting_approval_step : ℕ → Exec Db (Option MissionStep)
unfolding mission_row first_step
waiting_approval_step mission_id db = elim (mission_row mission_id db) [
  | none ↦ (err (key_error "mission not found"), db)
  | some mission ↦ (ok (first_step is_waiting mission_id db), db)
]

unfoldable pub all_succeeded : List MissionStep → Bool
all_succeeded steps =
    not (is_empty steps) && all (λ s. same_step_status s.status MissionStepStatus.succeeded) steps

unfoldable pub plan_is_complete : ℕ → Exec Db Bool
unfolding list_plan_steps all_succeeded
plan_is_complete mission_id db = elim (list_plan_steps mission_id db).0 [
  | err e ↦ (err e, db)
  | ok steps ↦ (ok (all_succeeded steps), db)
]
