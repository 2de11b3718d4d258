-- ===== src/Missions/Requests.antt =====
-- missions/executor.py: what the executor puts into a request, and what leaves the adapters alone.
use ai_hq.Prelude.{
  ℕ, String, none, some, List, ◌≡◌, refl, sym, inl, inr, Bool-cases, Option-cases, ◌==◌,
}
use ai_hq.Prelude.Result.{ok, ok_cancel}
use ai_hq.Prelude.Rows.{row_count}
use ai_hq.Json.{Json, null, bool, num, text, arr, obj, get_field, end}
use ai_hq.Tables.{Db}
use ai_hq.Tables.Missions.{Mission, MissionStatus, MissionStep, same_status}
use ai_hq.Tools.{ToolRequest}
use ai_hq.Missions.Transitions.{allowed_step_transition, allowed_transition}
use ai_hq.Missions.Lifecycle.{mission_row, put_mission, moved, status_change, transition}
use ai_hq.Missions.Moves.{transition_refused, transition_done}
use ai_hq.Missions.Plan.{
  step_row, transition_step, claim_step, claim_next_pending_step, first_step, is_incomplete,
  is_claimable,
}
use ai_hq.Missions.Execution.{Keeps, IsStable}
use ai_hq.Missions.Executor.{MissionExecutor, start_if_queued, request_for, field_or}

-- The adapters have been called for these requests.
unfoldable pub Spares : List ToolRequest → Db → Type 0
Spares calls db = db.calls ≡ calls

pub Spares-IsStable : (calls : List ToolRequest) → IsStable (Spares calls)
unfolding Spares Keeps transition transition_step put_mission status_change
Spares-IsStable calls = record {
  missions = λ mission_id target r e db h. elim (Option-cases (mission_row mission_id db)) [
    | inl n ↦ rw (transition, n) h
    | inr (m, row) ↦ elim (Bool-cases (allowed_transition m.status target)) [
      | inl t ↦ rw (transition, row, t) h
      | inr t ↦ rw (transition, row, t) h
    ]
  ];
  steps = λ step_id target r e a other db h. elim (Option-cases (step_row step_id db)) [
    | inl n ↦ rw (transition_step, n) h
    | inr (s, row) ↦ elim (Bool-cases (allowed_step_transition s.status target)) [
      | inl t ↦ rw (transition_step, row, t) h
      | inr t ↦ rw (transition_step, row, t) h
    ]
  ];
}

-- A claim changes steps only.
claim_step-others :
    (step_id : ℕ) (db : Db)
    → ((claim_step step_id db).1.calls ≡ db.calls)
      × ((claim_step step_id db).1.missions ≡ db.missions)
unfolding claim_step
claim_step-others step_id db = elim (Bool-cases (row_count (is_claimable step_id) db.steps == 1)) [
  | inl t ↦ rw (claim_step, t) (refl, refl)
  | inr t ↦ rw (claim_step, t) (refl, refl)
]

pub claim-others :
    (mission_id : ℕ) (db : Db)
    → ((claim_next_pending_step mission_id db).1.calls ≡ db.calls)
      × ((claim_next_pending_step mission_id db).1.missions ≡ db.missions)
unfolding claim_next_pending_step
claim-others mission_id db = elim (Option-cases (first_step is_incomplete mission_id db)) [
  | inl n ↦ rw (claim_next_pending_step, n) (refl, refl)
  | inr (row, e) ↦ rw (claim_next_pending_step, e) (claim_step-others row.id db)
]

-- Two rows of one mission that differ in its progress at most.
pub record IsSameMission (m n : Mission) : Type 0 where
  pub id : n.id ≡ m.id
  pub owner : n.owner_agent ≡ m.owner_agent
  pub risk : n.risk ≡ m.risk

pub start_if_queued-IsSameMission :
    (executor : MissionExecutor) (clock : ℕ → ℕ) (m n : Mission) (db : Db)
    → mission_row m.id db ≡ some m
    → (start_if_queued executor clock m db).0 ≡ ok n
    → IsSameMission m n
unfolding start_if_queued moved
start_if_queued-IsSameMission executor clock m n db row h =
    elim (Bool-cases (same_status m.status MissionStatus.queued)) [
      | inr t ↦
          let e : m ≡ n = ok_cancel (rw (start_if_queued, t) at h) in
          rw (sym e) (record { id = refl; owner = refl; risk = refl })
      | inl t ↦ elim (Bool-cases (allowed_transition m.status MissionStatus.running)) [
        | inl u ↦
            let e =
              ok_cancel
                (rw (start_if_queued, t, transition_done m.id _ none none db m row u) at h) in
            rw (sym e) (record { id = refl; owner = refl; risk = refl })
        | inr u ↦ cc (rw (start_if_queued, t, transition_refused m.id _ none none db m row u) at h)
      ]
    ]

-- What a request holds of the mission and the step that it was made for.
pub record IsFor (m : Mission) (s : MissionStep) (r : ToolRequest) : Type 0 where
  pub mission : r.mission_id ≡ m.id
  pub agent : r.agent_key ≡ m.owner_agent
  pub capability : r.capability ≡ s.tool_name
  pub risk : r.risk ≡ m.risk

pub request_for-IsFor :
    (repr : Json → String) (m : Mission) (s : MissionStep) (r : ToolRequest)
    → request_for repr m s ≡ ok r
    → IsFor m s r
unfolding request_for
request_for-IsFor repr m s r h =
    by_conditions (field_or (get_field "conditions" s.tool_arguments) (obj end)) refl
  where
    by_conditions :
        (c : Json) → field_or (get_field "conditions" s.tool_arguments) (obj end) ≡ c → IsFor m s r
    by_conditions (obj fs) e =
        let q = ok_cancel (rw (request_for, e) at h) in
        rw (sym q) (record { mission = refl; agent = refl; capability = refl; risk = refl })
    by_conditions null e = cc (rw (request_for, e) at h)
    by_conditions (bool b) e = cc (rw (request_for, e) at h)
    by_conditions (num n) e = cc (rw (request_for, e) at h)
    by_conditions (text t) e = cc (rw (request_for, e) at h)
    by_conditions (arr xs) e = cc (rw (request_for, e) at h)
