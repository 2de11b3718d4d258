-- ===== src/Missions/Workers.antt =====
-- missions/worker.py, missions/executor.py and missions/service.py: workers, people and the planner
-- act on the missions one after another.
use ai_hq.Prelude.{ℕ, Option, List, [], ◌∷◌, inl, inr, Bool-cases}
use ai_hq.Prelude.Result.{Result-cases}
use ai_hq.Json.{Fields}
use ai_hq.Tables.{Db}
use ai_hq.Tables.Missions.{Mission, MissionStatus}
use ai_hq.Tools.{ToolRegistry}
use ai_hq.Missions.Lifecycle.{list_missions, transition}
use ai_hq.Missions.Plan.{PlannedStep, create_plan, list_plan_steps, is_empty}
use ai_hq.Missions.Sequential.{IsSequential}
use ai_hq.Missions.Planning.{create_plan-IsSequential}
use ai_hq.Missions.Executor.{MissionExecutor, run_next, resume_approved}
use ai_hq.Missions.Worker.{run_first, run_once, is_runnable}
use ai_hq.Missions.Execution.{Keeps, IsSequential-IsStable}
use ai_hq.Missions.Order.{run_next-Keeps, resume_approved-Keeps}

-- Each call has its own readings of the clock.
pub data WorkerCall : Type 0 where
  plans : ℕ → List PlannedStep → Option ToolRegistry → WorkerCall
  advances : (ℕ → ℕ) → ℕ → WorkerCall
  resumes : (ℕ → ℕ) → ℕ → WorkerCall
  picks : (ℕ → ℕ) → WorkerCall
  moves : ℕ → MissionStatus → Option Fields → Option Fields → WorkerCall

module _ (executor : MissionExecutor) where
  unfoldable pub work : WorkerCall → Db → Db
  work (plans mission_id steps registry) db = (create_plan mission_id steps registry db).1
  work (advances clock mission_id) db = (run_next executor clock mission_id db).1
  work (resumes clock mission_id) db = (resume_approved executor clock mission_id db).1
  work (picks clock) db = (run_once executor clock db).1
  work (moves mission_id target result error_state) db =
      (transition mission_id target result error_state db).1

  unfoldable pub work_all : List WorkerCall → Db → Db
  unfolding work
  work_all [] db = db
  work_all (c ∷ cs) db = work_all cs (work c db)

  run_first-Keeps :
      (clock : ℕ → ℕ) (ms : List Mission) → Keeps IsSequential (run_first executor clock ms)
  unfolding Keeps run_first
  run_first-Keeps clock [] db inv = inv
  run_first-Keeps clock (m ∷ ms) db inv =
      let rest = run_first-Keeps clock ms db inv in
      elim (Bool-cases (is_runnable m)) [
        | inr t ↦ rw (run_first, t) rest
        | inl t ↦ elim (Result-cases (list_plan_steps m.id db).0) [
          | inl (e, h) ↦ rw (run_first, t, h) inv
          | inr (steps, h) ↦ elim (Bool-cases (is_empty steps)) [
            | inl u ↦ rw (run_first, t, h, u) rest
            | inr u ↦ rw (run_first, t, h, u) (run_next-Keeps executor clock m.id db inv)
          ]
        ]
      ]

  work-IsSequential : (c : WorkerCall) (db : Db) → IsSequential db → IsSequential (work c db)
  unfolding work Keeps run_once
  work-IsSequential (plans mission_id steps registry) db inv =
      create_plan-IsSequential mission_id steps registry db inv
  work-IsSequential (advances clock mission_id) db inv =
      run_next-Keeps executor clock mission_id db inv
  work-IsSequential (resumes clock mission_id) db inv =
      resume_approved-Keeps executor clock mission_id db inv
  work-IsSequential (picks clock) db inv = run_first-Keeps clock (list_missions db) db inv
  work-IsSequential (moves mission_id target result error_state) db inv =
      IsSequential-IsStable.missions mission_id target result error_state db inv

  -- Under every sequence of plans, worker iterations, executor runs, resumptions and moves of
  -- missions, with any clocks and any adapters, a step has started only after all earlier steps of
  -- its mission have succeeded, and step ids and positions stay unique.
  pub work_all-IsSequential :
      (cs : List WorkerCall) (db : Db) → IsSequential db → IsSequential (work_all cs db)
  unfolding work_all
  work_all-IsSequential [] db inv = inv
  work_all-IsSequential (c ∷ cs) db inv =
      work_all-IsSequential cs (work c db) (work-IsSequential c db inv)
