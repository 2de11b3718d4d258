-- ===== src/Missions/Executor.antt =====
-- missions/executor.py: advancing a mission by one step, through the gateway.
-- `repr` stands for Python's `str` on values that are no text.
use ai_hq.Prelude.{ℕ, String, false, Option, none, some, if◌then◌else◌}
use ai_hq.Prelude.Result.{Exec, Result, ok, err, value_error, pure, raise, ◌>>=◌}
use ai_hq.Json.{
  Json, Fields, null, bool, num, text, obj, end, field, get_field, without_field, truthy,
}
use ai_hq.Tables.{Db}
use ai_hq.Tables.Missions.{Mission, MissionStatus, MissionStep, MissionStepStatus, same_status}
use ai_hq.Tools.{ToolOutcomeState, waiting_approval, simulated, executed, ToolRequest, ToolOutcome}
use ai_hq.Missions.Transitions.{is_terminal}
use ai_hq.Missions.Lifecycle.{get_mission, transition}
use ai_hq.Missions.Plan.{
  or_empty, claim_next_pending_step, transition_step, waiting_approval_step, plan_is_complete,
}
use ai_hq.Gateway.Service.{ToolGateway, execute, state_value}

pub record MissionExecutionResult : Type 0 where
  pub mission_id : ℕ
  pub mission_status : MissionStatus
  pub step_id : Option ℕ
  pub step_status : Option MissionStepStatus
  pub outcome : Option ToolOutcome

pub record MissionExecutor : Type 0 where
  pub gateway : ToolGateway
  pub repr : Json → String

-- `arguments.pop(key, default)`, the value.
abbrev pub field_or : Option Json → Json → Json
field_or none d = d
field_or (some v) d = v

unfoldable pub str_of : (Json → String) → Json → String
str_of repr (text s) = s
str_of repr v = repr v

-- The request, once the conditions are known to be a dict.
abbrev pub request_with : (Json → String) → Mission → MissionStep → Fields → ToolRequest
request_with repr mission step conditions = record {
  mission_id = mission.id;
  agent_key = mission.owner_agent;
  capability = step.tool_name;
  target = str_of repr (field_or (get_field "target" step.tool_arguments) (num mission.id));
  risk = mission.risk;
  params =
      without_field "mutates_external_state"
        (without_field "conditions" (without_field "target" step.tool_arguments));
  conditions = conditions;
  mutates_external_state =
      truthy (field_or (get_field "mutates_external_state" step.tool_arguments) (bool false));
}

-- `_request_for`
unfoldable pub request_for : (Json → String) → Mission → MissionStep → Result ToolRequest
unfolding str_of get_field without_field truthy
request_for repr mission step =
    elim (field_or (get_field "conditions" step.tool_arguments) (obj end)) [
      | obj conditions ↦ ok (request_with repr mission step conditions)
      | _ ↦ err (value_error "mission step conditions must be an object")
    ]

abbrev pub reason_value : Option String → Json
reason_value none = null
reason_value (some s) = text s

abbrev pub step_result : Mission → MissionStep → ToolOutcome → MissionExecutionResult
step_result mission step outcome = record {
  mission_id = mission.id;
  mission_status = mission.status;
  step_id = some step.id;
  step_status = some step.status;
  outcome = some outcome;
}

-- `if self.missions.plan_is_complete(mission.id): ...`
unfoldable pub complete_if_done : Mission → Exec Db Mission
complete_if_done mission = do
  done ← plan_is_complete mission.id
  if done
      then transition mission.id MissionStatus.completed
          (some (field "plan_status" (text "completed") end)) none
      else pure mission

-- The branches on the gateway's outcome, which `run_next` and `resume_approved` share.
unfoldable pub settle :
    Mission → MissionStep → ToolOutcome → ToolOutcomeState → Exec Db MissionExecutionResult
unfolding complete_if_done
settle mission step outcome waiting_approval = do
  step' ←
      transition_step step.id MissionStepStatus.waiting_approval none none
        outcome.approval_request_id
  mission' ← transition mission.id MissionStatus.waiting_approval none none
  pure (step_result mission' step' outcome)
settle mission step outcome executed = do
  step' ←
      transition_step step.id MissionStepStatus.succeeded (some (or_empty outcome.result)) none none
  mission' ← complete_if_done mission
  pure (step_result mission' step' outcome)
settle mission step outcome simulated = do
  step' ←
      transition_step step.id MissionStepStatus.succeeded (some (or_empty outcome.result)) none none
  mission' ← complete_if_done mission
  pure (step_result mission' step' outcome)
settle mission step outcome state = do
  step' ←
      transition_step step.id MissionStepStatus.failed none
        (some (
          field "gateway_state" (text (state_value state))
            (field "reason" (reason_value outcome.reason) end)))
        none
  mission' ← transition mission.id MissionStatus.failed none (
      some (
        field "step_id" (num step'.id) (
          field "gateway_state" (text (state_value state))
            (field "reason" (reason_value outcome.reason) end))))
  pure (step_result mission' step' outcome)

module _ (executor : MissionExecutor) (clock : ℕ → ℕ) where
  -- `self.gateway.execute(self._request_for(mission, step))` and the branches on its outcome.
  unfoldable pub perform_step : Mission → MissionStep → Exec Db MissionExecutionResult
  unfolding settle request_for
  perform_step mission step db = elim (request_for executor.repr mission step) [
    | err e ↦ (err e, db)
    | ok request ↦
        let (outcome, db') = execute executor.gateway clock request db in
        settle mission step outcome outcome.state db'
  ]

  abbrev pub status_result : Mission → MissionExecutionResult
  status_result mission = record {
    mission_id = mission.id;
    mission_status = mission.status;
    step_id = none;
    step_status = none;
    outcome = none;
  }

  -- `if mission.status is MissionStatus.QUEUED: mission = transition(..., RUNNING)`
  unfoldable pub start_if_queued : Mission → Exec Db Mission
  start_if_queued mission =
      if same_status mission.status MissionStatus.queued
      then transition mission.id MissionStatus.running none none
      else pure mission

  -- No step could be claimed.
  unfoldable pub finish_plan : Mission → Exec Db MissionExecutionResult
  unfolding start_if_queued
  finish_plan mission = do
    done ← plan_is_complete mission.id
    if done
        then (do
          started ← start_if_queued mission
          if same_status started.status MissionStatus.running
              then (do
                completed ← transition started.id MissionStatus.completed none none
                pure (status_result completed))
              else pure (status_result started))
        else pure (status_result mission)

  -- What follows the checks on the mission's status.
  unfoldable pub advance : Mission → Exec Db MissionExecutionResult
  unfolding finish_plan start_if_queued perform_step
  advance mission db =
      let (claimed, db') = claim_next_pending_step mission.id db in
      elim claimed [
        | none ↦ finish_plan mission db'
        | some step ↦ (do started ← start_if_queued mission; perform_step started step) db'
      ]

  unfoldable pub wait_or_advance : Mission → Option MissionStep → Exec Db MissionExecutionResult
  unfolding advance
  wait_or_advance mission none = advance mission
  wait_or_advance mission (some waiting) = pure (record {
    mission_id = mission.id;
    mission_status = mission.status;
    step_id = some waiting.id;
    step_status = some waiting.status;
    outcome = none;
  })

  unfoldable pub run_next : ℕ → Exec Db MissionExecutionResult
  unfolding wait_or_advance
  run_next mission_id = do
    mission ← get_mission mission_id
    if is_terminal mission.status
        then pure (status_result mission)
        else if same_status mission.status MissionStatus.waiting_approval
        then (do waiting ← waiting_approval_step mission.id; wait_or_advance mission waiting)
        else advance mission

  unfoldable pub resume_step : Mission → Option MissionStep → Exec Db MissionExecutionResult
  unfolding perform_step
  resume_step mission none = raise (value_error "mission has no step waiting for approval")
  resume_step mission (some waiting) = do
    step ← transition_step waiting.id MissionStepStatus.running none none none
    started ← transition mission.id MissionStatus.running none none
    perform_step started step

  unfoldable pub resume_approved : ℕ → Exec Db MissionExecutionResult
  unfolding resume_step
  resume_approved mission_id = do
    mission ← get_mission mission_id
    if same_status mission.status MissionStatus.waiting_approval
        then (do waiting ← waiting_approval_step mission.id; resume_step mission waiting)
        else raise (value_error "mission is not waiting for approval")
