-- ===== src/Missions/OneCall.antt =====
-- missions/executor.py: the adapter calls of one run of the executor.
use ai_hq.Prelude.{
  ℕ, some, [], ◌∷◌, ◌++◌, ◌≡◌, refl, ap, subst, ◌∙◌, ◌⊎◌, inl, inr, Bool-cases, Option-cases,
}
use ai_hq.Prelude.Result.{◌>>=◌, Result-cases}
use ai_hq.Prelude.Rows.{find}
use ai_hq.Tables.{Db}
use ai_hq.Tables.Missions.{Mission, MissionStatus, MissionStep, MissionStepStatus, same_status}
use ai_hq.Tools.{ToolRequest}
use ai_hq.Gateway.Service.{execute}
use ai_hq.Gateway.Authority.{execute_calls, was_called}
use ai_hq.Missions.Transitions.{is_terminal}
use ai_hq.Missions.Lifecycle.{has_id, mission_row, get_mission}
use ai_hq.Missions.Moves.{mission_row_id}
use ai_hq.Missions.Plan.{
  claim_next_pending_step, waiting_approval_step, first_step, is_incomplete, is_waiting,
}
use ai_hq.Missions.Sequential.{IsSequential}
use ai_hq.Missions.Claimed.{claim_next_pending_step-IsNext}
use ai_hq.Missions.Execution.{Keeps}
use ai_hq.Missions.Settling.{settle-Keeps, start_if_queued-Keeps, finish_plan-Keeps}
use ai_hq.Missions.Executor.{
  MissionExecutor, perform_step, start_if_queued, advance, wait_or_advance, run_next, request_for,
}
use ai_hq.Missions.Requests.{
  Spares, Spares-IsStable, claim-others, start_if_queued-IsSameMission, IsFor, request_for-IsFor,
}

-- One request went out, for the first step of the mission that had not succeeded, and which nobody
-- had started.
pub record CallsNext (mission_id : ℕ) (db after : Db) : Type 0 where
  pub mission : Mission
  pub row : mission_row mission_id db ≡ some mission
  pub next : MissionStep
  pub first : first_step is_incomplete mission_id db ≡ some next
  pub pending : next.status ≡ MissionStepStatus.pending
  pub request : ToolRequest
  pub made : IsFor mission next request
  pub called : after.calls ≡ db.calls ++ request ∷ []

module _ (executor : MissionExecutor) (clock : ℕ → ℕ) where
  perform_step_calls :
      (mission : Mission) (step : MissionStep) (db : Db)
      → ((perform_step executor clock mission step db).1.calls ≡ db.calls)
        ⊎ ((r : ToolRequest) × IsFor mission step r
            × ((perform_step executor clock mission step db).1.calls ≡ db.calls ++ r ∷ []))
  unfolding perform_step Keeps Spares
  perform_step_calls mission step db =
      elim (Result-cases (request_for executor.repr mission step)) [
        | inl (e, h) ↦ inl (rw (perform_step, h) refl)
        | inr (r, h) ↦
            let p = execute executor.gateway clock r db in
            let c = execute_calls executor.gateway clock r db in
            let settled =
              settle-Keeps (Spares p.1.calls) (Spares-IsStable p.1.calls) mission step p.0 p.0.state
                p.1 refl in
            elim (Bool-cases (was_called p.0.state)) [
              | inl t ↦ inr (
                r,
                request_for-IsFor executor.repr mission step r h,
                rw (perform_step, h) (settled ∙ (rw t at c)),
              )
              | inr t ↦ inl (rw (perform_step, h) (settled ∙ (rw t at c)))
            ]
      ]

  started_calls :
      (mission : Mission) (step : MissionStep) (db : Db)
      → mission_row mission.id db ≡ some mission
      → (((start_if_queued executor clock mission >>= λ started.
              perform_step executor clock started step)
            db).1.calls
          ≡ db.calls)
        ⊎ ((r : ToolRequest) × IsFor mission step r
            × (((start_if_queued executor clock mission >>= λ started.
                    perform_step executor clock started step)
                  db).1.calls
                ≡ db.calls ++ r ∷ []))
  unfolding Keeps Spares
  started_calls mission step db row =
      let silent =
        start_if_queued-Keeps (Spares db.calls) (Spares-IsStable db.calls) executor clock mission db
          refl in
      elim (Result-cases (start_if_queued executor clock mission db).0) [
        | inl (e, h) ↦ inl (rw (◌>>=◌, h) silent)
        | inr (started, h) ↦
            let same = start_if_queued-IsSameMission executor clock mission started db row h in
            elim (perform_step_calls started step (start_if_queued executor clock mission db).1) [
              | inl q ↦ inl (rw (◌>>=◌, h) (q ∙ silent))
              | inr (r, made, q) ↦ inr (
                r,
                record {
                  mission = made.mission ∙ same.id;
                  agent = made.agent ∙ same.owner;
                  capability = made.capability;
                  risk = made.risk ∙ same.risk;
                },
                rw (◌>>=◌, h) (q ∙ ap (λ c. c ++ r ∷ []) silent),
              )
            ]
      ]

  advance_calls :
      (mission_id : ℕ) (mission : Mission) (db : Db)
      → IsSequential db
      → mission_row mission_id db ≡ some mission
      → ((advance executor clock mission db).1.calls ≡ db.calls)
        ⊎ CallsNext mission_id db (advance executor clock mission db).1
  unfolding advance Keeps Spares mission_row
  advance_calls mission_id mission db inv row =
      let known : mission.id ≡ mission_id = mission_row_id mission_id db row in
      let (calls, missions) = claim-others mission.id db in
      elim (Option-cases (claim_next_pending_step mission.id db).0) [
        | inl n ↦ inl (
            rw (advance, n)
              (finish_plan-Keeps (Spares db.calls) (Spares-IsStable db.calls) executor clock mission
                (claim_next_pending_step mission.id db).1 calls))
        | inr (step, h) ↦
            let next = claim_next_pending_step-IsNext mission.id db step inv h in
            let there : mission_row mission.id (claim_next_pending_step mission.id db).1
                ≡ some mission =
              ap (λ ms. find (has_id mission.id) ms) missions
              ∙ ap (λ k. mission_row k db) known
              ∙ row in
            elim (started_calls mission step (claim_next_pending_step mission.id db).1 there) [
              | inl q ↦ inl (rw (advance, h) (q ∙ calls))
              | inr (r, made, q) ↦ inr (record {
                mission = mission;
                row = row;
                next = next.row;
                first = subst (λ k. first_step is_incomplete k db ≡ some next.row) known next.first;
                pending = next.pending;
                request = r;
                made = record {
                  mission = made.mission;
                  agent = made.agent;
                  capability = made.capability ∙ ap (λ (x : MissionStep). x.tool_name) next.started;
                  risk = made.risk;
                };
                called = rw (advance, h) (q ∙ ap (λ c. c ++ r ∷ []) calls);
              })
            ]
      ]

  -- If the plans are in order, a run of the executor either calls no adapter, or it calls one once,
  -- for the first step of the mission that had not succeeded and that nobody had started, with the
  -- step's tool, the mission's id and risk, and the authority of the mission's owner.
  pub run_next_calls :
      (mission_id : ℕ) (db : Db)
      → IsSequential db
      → ((run_next executor clock mission_id db).1.calls ≡ db.calls)
        ⊎ CallsNext mission_id db (run_next executor clock mission_id db).1
  unfolding run_next get_mission waiting_approval_step wait_or_advance
  run_next_calls mission_id db inv = elim (Option-cases (mission_row mission_id db)) [
    | inl n ↦ inl (rw (run_next, get_mission, n) refl)
    | inr (mission, row) ↦ elim (Bool-cases (is_terminal mission.status)) [
      | inl t ↦ inl (rw (run_next, ◌>>=◌, get_mission, row, t) refl)
      | inr t ↦ elim (Bool-cases (same_status mission.status MissionStatus.waiting_approval)) [
        | inr u ↦
            rw (run_next, ◌>>=◌, get_mission, row, t, u)
              (advance_calls mission_id mission db inv row)
        | inl u ↦
            let own : mission_row mission.id db ≡ some mission =
              ap (λ k. mission_row k db) (mission_row_id mission_id db row) ∙ row in
            elim (Option-cases (first_step is_waiting mission.id db)) [
              | inr (s, e) ↦ inl (
                  rw
                    (
                      run_next, ◌>>=◌, get_mission, row, t, u, waiting_approval_step, own, e,
                      wait_or_advance,
                    )
                    refl)
              | inl e ↦
                  rw
                    (
                      run_next, ◌>>=◌, get_mission, row, t, u, waiting_approval_step, own, e,
                      wait_or_advance,
                    )
                    (advance_calls mission_id mission db inv row)
            ]
      ]
    ]
  ]
