-- ===== src/Missions/Worker.antt =====
-- missions/worker.py: choosing the next mission to advance. The executor of the code returns no
-- `delivery_candidate`, so the hand-off of a result does nothing.
use ai_hq.Prelude.{ℕ, Bool, ◌||◌, Option, none, some, List, [], ◌∷◌, if◌then◌else◌}
use ai_hq.Prelude.Result.{Exec, Result, ok, err}
use ai_hq.Tables.{Db}
use ai_hq.Tables.Missions.{Mission, MissionStatus, same_status}
use ai_hq.Missions.Lifecycle.{list_missions}
use ai_hq.Missions.Plan.{list_plan_steps, is_empty}
use ai_hq.Missions.Executor.{MissionExecutor, MissionExecutionResult, run_next}

abbrev pub is_runnable : Mission → Bool
is_runnable m =
    same_status m.status MissionStatus.queued || same_status m.status MissionStatus.running

abbrev pub wrap : Result MissionExecutionResult → Result (Option MissionExecutionResult)
wrap (ok r) = ok (some r)
wrap (err e) = err e

-- The loop over the missions; `list_plan_steps` reads only.
unfoldable pub run_first :
    MissionExecutor → (ℕ → ℕ) → List Mission → Exec Db (Option MissionExecutionResult)
run_first executor clock [] db = (ok none, db)
run_first executor clock (m ∷ ms) db =
    let rest = run_first executor clock ms db in
    if is_runnable m
    then (elim (list_plan_steps m.id db).0 [
      | err e ↦ (err e, db)
      | ok steps ↦
          if is_empty steps
          then rest
          else let (r, db') = run_next executor clock m.id db in (wrap r, db')
    ])
    else rest

unfoldable pub run_once : MissionExecutor → (ℕ → ℕ) → Exec Db (Option MissionExecutionResult)
unfolding run_first
run_once executor clock db = run_first executor clock (list_missions db) db
