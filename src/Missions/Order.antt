-- ===== src/Missions/Order.antt =====
-- missions/executor.py: the executor and the order of a plan's steps.
use ai_hq.Prelude.{ℕ, ◌&&◌, Option, none, some, ◌≡◌, ◌≢◌, refl, ap, inl, inr, arith, Option-cases}
use ai_hq.Prelude.Result.{value_error, ◌>>=◌, Result-cases}
use ai_hq.Prelude.Rows.Members.{find-mem, first_by-mem, where_rows-mem}
use ai_hq.Tables.{Db}
use ai_hq.Tables.Missions.{Mission, MissionStatus, MissionStep, MissionStepStatus}
use ai_hq.Gateway.Service.{execute}
use ai_hq.Gateway.Frame.{execute-KeepsMissions}
use ai_hq.Missions.Lifecycle.{mission_row, transition}
use ai_hq.Missions.Plan.{
  step_row, transition_step, claim_next_pending_step, waiting_approval_step, first_step, is_waiting,
  has_step_id, of_mission, step_before,
}
use ai_hq.Missions.Sequential.{
  IsSequential, claim_next_pending_step-IsSequential, transition_step-IsSequential,
}
use ai_hq.Missions.Executor.{
  MissionExecutor, perform_step, start_if_queued, advance, wait_or_advance, run_next, resume_step,
  resume_approved, request_for,
}
use ai_hq.Missions.Execution.{
  Keeps, bind_from, bind-Keeps, pure-Keeps, refused-Keeps, if-Keeps, framed-IsSequential,
  IsSequential-IsStable, get_mission-Keeps, waiting_approval_step-Keeps,
}
use ai_hq.Missions.Settling.{settle-Keeps, start_if_queued-Keeps, finish_plan-Keeps}

module _ (executor : MissionExecutor) (clock : ℕ → ℕ) where
  perform_step-Keeps :
      (mission : Mission) (step : MissionStep)
      → Keeps IsSequential (perform_step executor clock mission step)
  unfolding perform_step Keeps
  perform_step-Keeps mission step db inv =
      elim (Result-cases (request_for executor.repr mission step)) [
        | inl (e, h) ↦ rw (perform_step, h) inv
        | inr (request, h) ↦
            let k = execute-KeepsMissions executor.gateway clock request db in
            rw (perform_step, h)
              (settle-Keeps IsSequential IsSequential-IsStable mission step
                (execute executor.gateway clock request db).0 _
                (execute executor.gateway clock request db).1
                (framed-IsSequential db _ k.steps k.ids inv))
      ]

  advance-Keeps : (mission : Mission) → Keeps IsSequential (advance executor clock mission)
  unfolding advance Keeps
  advance-Keeps mission db inv =
      let next = claim_next_pending_step-IsSequential mission.id db inv in
      elim (Option-cases (claim_next_pending_step mission.id db).0) [
        | inl n ↦
            rw (advance, n)
              (finish_plan-Keeps IsSequential IsSequential-IsStable executor clock mission _ next)
        | inr (step, h) ↦
            rw (advance, h)
              (bind-Keeps IsSequential (start_if_queued executor clock mission)
                (λ started. perform_step executor clock started step)
                (start_if_queued-Keeps IsSequential IsSequential-IsStable executor clock mission)
                (λ started. perform_step-Keeps started step) _ next)
      ]

  wait_or_advance-Keeps :
      (mission : Mission) (waiting : Option MissionStep)
      → Keeps IsSequential (wait_or_advance executor clock mission waiting)
  unfolding wait_or_advance
  wait_or_advance-Keeps mission none = advance-Keeps mission
  wait_or_advance-Keeps mission (some waiting) = pure-Keeps IsSequential _

  pub run_next-Keeps : (mission_id : ℕ) → Keeps IsSequential (run_next executor clock mission_id)
  unfolding run_next
  run_next-Keeps mission_id =
      bind-Keeps IsSequential _ _ (get_mission-Keeps IsSequential mission_id) (λ mission.
        if-Keeps IsSequential _ _ _ (pure-Keeps IsSequential _) (
          if-Keeps IsSequential _ _ _
            (bind-Keeps IsSequential _ _ (waiting_approval_step-Keeps IsSequential mission.id)
              (λ waiting. wait_or_advance-Keeps mission waiting))
            (advance-Keeps mission)))

  -- Resuming a step that is not pending.
  resume_step-IsSequential :
      (mission : Mission) (waiting : MissionStep) (db : Db)
      → IsSequential db
      → ((s : MissionStep) → step_row waiting.id db ≡ some s → s.status ≢ MissionStepStatus.pending)
      → IsSequential (resume_step executor clock mission (some waiting) db).1
  unfolding resume_step Keeps
  resume_step-IsSequential mission waiting db inv started =
      bind_from IsSequential (transition_step waiting.id MissionStepStatus.running none none none)
        (λ step. do
          started ← transition mission.id MissionStatus.running none none
          perform_step executor clock started step)
        db (transition_step-IsSequential waiting.id _ none none none db inv started)
        (λ step.
          bind-Keeps IsSequential _ _ (IsSequential-IsStable.missions mission.id _ none none)
            (λ started. perform_step-Keeps started step))

  resume_found :
      (mission : Mission) (waiting : Option MissionStep) (db : Db)
      → first_step is_waiting mission.id db ≡ waiting
      → IsSequential db
      → IsSequential (resume_step executor clock mission waiting db).1
  unfolding resume_step first_step step_row
  resume_found mission none db e inv = inv
  resume_found mission (some waiting) db e inv =
      let (m, t) =
        where_rows-mem (λ x. of_mission mission.id x && is_waiting x.status) db.steps waiting
          (first_by-mem step_before _ waiting e) in
      resume_step-IsSequential mission waiting db inv (λ s row p.
        let (ms, ts) = find-mem (has_step_id waiting.id) db.steps s row in
        let same = inv.unique s waiting ms m (ground (arith, ts)) in
        let q = ap (λ (x : MissionStep). x.status) same in ground (arith, t, q, p))

  resume_waiting-Keeps :
      (mission : Mission)
      → Keeps IsSequential (waiting_approval_step mission.id >>= resume_step executor clock mission)
  unfolding Keeps waiting_approval_step
  resume_waiting-Keeps mission db inv = elim (Option-cases (mission_row mission.id db)) [
    | inl n ↦ rw (◌>>=◌, waiting_approval_step, n) inv
    | inr (m, row) ↦
        rw (◌>>=◌, waiting_approval_step, row)
          (resume_found mission (first_step is_waiting mission.id db) db refl inv)
  ]

  pub resume_approved-Keeps :
      (mission_id : ℕ) → Keeps IsSequential (resume_approved executor clock mission_id)
  unfolding resume_approved
  resume_approved-Keeps mission_id =
      bind-Keeps IsSequential _ _ (get_mission-Keeps IsSequential mission_id) (λ mission.
        if-Keeps IsSequential _ _ _ (resume_waiting-Keeps mission)
          (refused-Keeps IsSequential _ (value_error "mission is not waiting for approval")))
