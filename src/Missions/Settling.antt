-- ===== src/Missions/Settling.antt =====
-- missions/executor.py: what the parts of the executor keep.
use ai_hq.Prelude.{ℕ}
use ai_hq.Tables.{Db}
use ai_hq.Tables.Missions.{Mission, MissionStep}
use ai_hq.Tools.{ToolOutcomeState, ToolOutcome}
use ai_hq.Missions.Executor.{
  MissionExecutor, settle, complete_if_done, start_if_queued, finish_plan,
}
use ai_hq.Missions.Execution.{
  Keeps, bind-Keeps, pure-Keeps, if-Keeps, IsStable, plan_is_complete-Keeps,
}

module _ (P : Db → Type 0) (stable : IsStable P) where
  pub complete_if_done-Keeps : (mission : Mission) → Keeps P (complete_if_done mission)
  unfolding complete_if_done
  complete_if_done-Keeps mission =
      bind-Keeps P _ _ (plan_is_complete-Keeps P mission.id)
        (λ done. if-Keeps P done _ _ (stable.missions mission.id _ _ _) (pure-Keeps P mission))

  pub settle-Keeps :
      (mission : Mission) (step : MissionStep) (outcome : ToolOutcome) (state : ToolOutcomeState)
      → Keeps P (settle mission step outcome state)
  unfolding settle
  settle-Keeps mission step outcome ToolOutcomeState.waiting_approval =
      bind-Keeps P _ _ (stable.steps step.id _ _ _ _ (λ e. cc))
        (λ step'. bind-Keeps P _ _ (stable.missions mission.id _ _ _) (λ mission'. pure-Keeps P _))
  settle-Keeps mission step outcome ToolOutcomeState.executed =
      bind-Keeps P _ _ (stable.steps step.id _ _ _ _ (λ e. cc))
        (λ step'. bind-Keeps P _ _ (complete_if_done-Keeps mission) (λ mission'. pure-Keeps P _))
  settle-Keeps mission step outcome ToolOutcomeState.simulated =
      bind-Keeps P _ _ (stable.steps step.id _ _ _ _ (λ e. cc))
        (λ step'. bind-Keeps P _ _ (complete_if_done-Keeps mission) (λ mission'. pure-Keeps P _))
  settle-Keeps mission step outcome ToolOutcomeState.blocked =
      bind-Keeps P _ _ (stable.steps step.id _ _ _ _ (λ e. cc))
        (λ step'. bind-Keeps P _ _ (stable.missions mission.id _ _ _) (λ mission'. pure-Keeps P _))
  settle-Keeps mission step outcome ToolOutcomeState.failed =
      bind-Keeps P _ _ (stable.steps step.id _ _ _ _ (λ e. cc))
        (λ step'. bind-Keeps P _ _ (stable.missions mission.id _ _ _) (λ mission'. pure-Keeps P _))

  pub start_if_queued-Keeps :
      (executor : MissionExecutor) (clock : ℕ → ℕ) (mission : Mission)
      → Keeps P (start_if_queued executor clock mission)
  unfolding start_if_queued
  start_if_queued-Keeps executor clock mission =
      if-Keeps P _ _ _ (stable.missions mission.id _ _ _) (pure-Keeps P mission)

  pub finish_plan-Keeps :
      (executor : MissionExecutor) (clock : ℕ → ℕ) (mission : Mission)
      → Keeps P (finish_plan executor clock mission)
  unfolding finish_plan
  finish_plan-Keeps executor clock mission =
      bind-Keeps P _ _ (plan_is_complete-Keeps P mission.id) (λ done.
        if-Keeps P done _ _
          (bind-Keeps P _ _ (start_if_queued-Keeps executor clock mission) (λ started.
            if-Keeps P _ _ _
              (bind-Keeps P _ _ (stable.missions started.id _ _ _) (λ completed. pure-Keeps P _))
              (pure-Keeps P _)))
          (pure-Keeps P _))
