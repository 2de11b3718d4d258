-- ===== src/Missions/Execution.antt =====
-- missions/service.py: what the methods that the executor calls keep.
use ai_hq.Prelude.{
  ℕ, ◌≤◌, Bool, true, false, Option, ◌≡◌, ◌≢◌, refl, sym, ap, ◌∙◌, inl, inr, arith, Bool-cases,
  Option-cases, if◌then◌else◌, some_cancel,
}
use ai_hq.Prelude.Result.{Exec, Error, pure, raise, ◌>>=◌, Result-cases}
use ai_hq.Json.{Fields}
use ai_hq.Tables.{Db}
use ai_hq.Tables.Missions.{MissionStatus, MissionStep, MissionStepStatus}
use ai_hq.Missions.Transitions.{allowed_step_transition, allowed_transition}
use ai_hq.Missions.Lifecycle.{mission_row, get_mission, put_mission, status_change, transition}
use ai_hq.Missions.Moves.{transition_missing, transition_refused, transition_done}
use ai_hq.Missions.Plan.{
  step_row, transition_step, waiting_approval_step, plan_is_complete, list_plan_steps,
}
use ai_hq.Missions.Sequential.{IsSequential, transition_step-IsSequential}

-- A method after which a property of the tables holds if it held before.
unfoldable pub Keeps : (Db → Type 0) → {A : Type 0} → Exec Db A → Type 0
Keeps P m = (db : Db) → P db → P (m db).1

module _ (P : Db → Type 0) where
  -- The same from one state on.
  pub bind_from :
      {A B : Type 0} (m : Exec Db A) (f : A → Exec Db B) (db : Db)
      → P (m db).1
      → ((a : A) → Keeps P (f a))
      → P ((m >>= f) db).1
  unfolding Keeps
  bind_from m f db inv kf = elim (Result-cases (m db).0) [
    | inl (e, h) ↦ rw (◌>>=◌, h) inv
    | inr (a, h) ↦ rw (◌>>=◌, h) (kf a (m db).1 inv)
  ]

  pub bind-Keeps :
      {A B : Type 0} (m : Exec Db A) (f : A → Exec Db B)
      → Keeps P m
      → ((a : A) → Keeps P (f a))
      → Keeps P (m >>= f)
  unfolding Keeps
  bind-Keeps m f km kf db inv = bind_from m f db (km db inv) kf

  pub pure-Keeps : {A : Type 0} (a : A) → Keeps P (pure a)
  unfolding Keeps
  pure-Keeps a db inv = inv

  pub refused-Keeps : (A : Type 0) (e : Error) → Keeps P {A = A} (raise e)
  unfolding Keeps
  refused-Keeps A e db inv = inv

  pub if-Keeps :
      {A : Type 0} (b : Bool) (m n : Exec Db A)
      → Keeps P m
      → Keeps P n
      → Keeps P (if b then m else n)
  if-Keeps true m n km kn = km
  if-Keeps false m n km kn = kn

  pub plan_is_complete-Keeps : (mission_id : ℕ) → Keeps P (plan_is_complete mission_id)
  unfolding Keeps plan_is_complete
  plan_is_complete-Keeps mission_id db inv = elim (Result-cases (list_plan_steps mission_id db).0) [
    | inl (e, h) ↦ rw (plan_is_complete, h) inv
    | inr (a, h) ↦ rw (plan_is_complete, h) inv
  ]

  pub get_mission-Keeps : (mission_id : ℕ) → Keeps P (get_mission mission_id)
  unfolding Keeps get_mission
  get_mission-Keeps mission_id db inv = elim (Option-cases (mission_row mission_id db)) [
    | inl h ↦ rw (get_mission, h) inv
    | inr (a, h) ↦ rw (get_mission, h) inv
  ]

  pub waiting_approval_step-Keeps : (mission_id : ℕ) → Keeps P (waiting_approval_step mission_id)
  unfolding Keeps waiting_approval_step
  waiting_approval_step-Keeps mission_id db inv = elim (Option-cases (mission_row mission_id db)) [
    | inl h ↦ rw (waiting_approval_step, h) inv
    | inr (a, h) ↦ rw (waiting_approval_step, h) inv
  ]

-- A property that the moves of missions and of started steps keep.
pub record IsStable (P : Db → Type 0) : Type 0 where
  pub missions :
      (mission_id : ℕ) (target : MissionStatus) (r e : Option Fields)
      → Keeps P (transition mission_id target r e)
  pub steps :
      (step_id : ℕ) (target : MissionStepStatus) (r e : Option Fields) (a : Option ℕ)
      → target ≢ MissionStepStatus.running
      → Keeps P (transition_step step_id target r e a)

-- What leaves the steps alone keeps them in order.
pub framed-IsSequential :
    (db after : Db)
    → after.steps ≡ db.steps
    → db.next_id ≤ after.next_id
    → IsSequential db
    → IsSequential after
framed-IsSequential db after e up inv = record {
  fresh = λ s m. let lt = inv.fresh s (rw e at m) in omega (arith, lt, up);
  unique = λ s t m n. inv.unique s t (rw e at m) (rw e at n);
  positions = λ s t m n. inv.positions s t (rw e at m) (rw e at n);
  ordered = λ s t m n. inv.ordered s t (rw e at m) (rw e at n);
}

pub transition-Keeps :
    (mission_id : ℕ) (target : MissionStatus) (r e : Option Fields)
    → Keeps IsSequential (transition mission_id target r e)
unfolding Keeps put_mission status_change
transition-Keeps mission_id target r e db inv = elim (Option-cases (mission_row mission_id db)) [
  | inl n ↦ rw (transition_missing mission_id target r e db n) inv
  | inr (m, row) ↦ elim (Bool-cases (allowed_transition m.status target)) [
    | inl t ↦
        rw (transition_done mission_id target r e db m row t)
          (framed-IsSequential db _ refl (omega arith) inv)
    | inr t ↦ rw (transition_refused mission_id target r e db m row t) inv
  ]
]

-- A pending step can only be moved to `RUNNING`.
pub transition_step-Keeps :
    (step_id : ℕ) (target : MissionStepStatus) (r e : Option Fields) (a : Option ℕ)
    → target ≢ MissionStepStatus.running
    → Keeps IsSequential (transition_step step_id target r e a)
unfolding Keeps transition_step
transition_step-Keeps step_id target r e a other db inv =
    elim (Option-cases (step_row step_id db)) [
      | inl n ↦ rw (transition_step, n) inv
      | inr (step, row) ↦ elim (Bool-cases (allowed_step_transition step.status target)) [
        | inr t ↦ rw (transition_step, row, t) inv
        | inl t ↦ transition_step-IsSequential step_id target r e a db inv (λ s h p.
            let same : s ≡ step = some_cancel (sym h ∙ row) in
            let q : step.status ≡ MissionStepStatus.pending =
              sym (ap (λ (x : MissionStep). x.status) same) ∙ p in
            only_running target other (rw q at t))
      ]
    ]
  where
    only_running :
        (target : MissionStepStatus)
        → target ≢ MissionStepStatus.running
        → allowed_step_transition MissionStepStatus.pending target ≡ true
        → ⊥
    only_running target n t = unfold allowed_step_transition in ground (arith, n, t)

pub IsSequential-IsStable : IsStable IsSequential
IsSequential-IsStable = record { missions = transition-Keeps; steps = transition_step-Keeps }
