-- ===== src/Tests/Execution.antt =====
-- The executor on a plan of one step that a person approved.
use ai_hq.Prelude.{none, some, [], ◌∷◌, List, refl, ◌≡◌, ◌⊎◌, length}
use ai_hq.Json.{text, field, end}
use ai_hq.Tables.{Db}
use ai_hq.Tables.Missions.{MissionStatus}
use ai_hq.Missions.Plan.{PlannedStep, create_plan}
use ai_hq.Missions.Executor.{MissionExecutor, run_next}
use ai_hq.Missions.Sequential.{IsSequential}
use ai_hq.Missions.Planning.{create_plan-IsSequential}
use ai_hq.Missions.OneCall.{CallsNext, run_next_calls}
use ai_hq.Missions.Workers.{
  WorkerCall, plans, advances, resumes, picks, moves, work_all, work_all-IsSequential,
}
use ai_hq.Missions.Lifecycle.{mission_row, get_mission, transition}
use ai_hq.Missions.Plan.{claim_next_pending_step, transition_step, plan_is_complete}
use ai_hq.Gateway.Service.{execute, action_of, has_exact_permission, run_adapter}
use ai_hq.Safety.Service.{evaluate}
use ai_hq.Tests.Data.{base, gateway, clock_from, mission_at}
use ai_hq.Tests.Missions.{base-IsSequential}

abbrev executor : MissionExecutor
executor = record { gateway = gateway; repr = λ v. "1" }

abbrev recovery_plan : List PlannedStep
recovery_plan =
    record { description = "Recover"; tool_name = "service.recover"; tool_arguments = none } ∷ []

abbrev planned : Db
planned = (create_plan 1 recovery_plan none base).1

planned-IsSequential : IsSequential planned
planned-IsSequential = create_plan-IsSequential 1 recovery_plan none base base-IsSequential

run_next_calls_example :
    ((run_next executor (clock_from 20) 1 planned).1.calls ≡ planned.calls)
    ⊎ CallsNext 1 planned (run_next executor (clock_from 20) 1 planned).1
run_next_calls_example = run_next_calls executor (clock_from 20) 1 planned planned-IsSequential

abbrev day : List WorkerCall
day =
    plans 1 recovery_plan none
    ∷ advances (clock_from 20) 1
    ∷ picks (clock_from 30)
    ∷ resumes (clock_from 40) 1
    ∷ moves 1 MissionStatus.paused none none
    ∷ []

work_all-IsSequential_example : IsSequential (work_all executor day base)
work_all-IsSequential_example = work_all-IsSequential executor day base base-IsSequential

-- The step's adapter is called and the mission completes.
one_call : length (run_next executor (clock_from 20) 1 planned).1.calls ≡ 1
unfolding run_next create_plan get_mission claim_next_pending_step execute evaluate action_of
    has_exact_permission run_adapter transition_step plan_is_complete transition
one_call = refl

mission_completed :
    mission_row 1 (run_next executor (clock_from 20) 1 planned).1
    ≡ some (record (mission_at 1 MissionStatus.completed) {
      result = some (field "plan_status" (text "completed") end);
    })
unfolding run_next create_plan mission_row get_mission claim_next_pending_step execute evaluate
    action_of has_exact_permission run_adapter transition_step plan_is_complete transition
mission_completed = refl
