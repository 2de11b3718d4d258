-- ===== src/Missions/Sequential.antt =====
-- missions/service.py: the order in which the steps of a plan start.
use ai_hq.Prelude.{
  ℕ, ◌<◌, Bool, true, ◌&&◌, Option, some, ◌==◌, ◌≡◌, ◌≢◌, refl, sym, ap, ◌∙◌, inl, inr, arith,
  Bool-cases, Option-cases, Memᴰ,
}
use ai_hq.Prelude.Rows.{update_where, row_count}
use ai_hq.Prelude.Rows.Finds.{updated}
use ai_hq.Prelude.Rows.Members.{
  find-mem, mem-update_where, where_rows-mem, mem-where_rows, first_by-mem, first_by-least, IsOrder,
}
use ai_hq.Json.{Fields}
use ai_hq.Tables.{Db}
use ai_hq.Tables.Missions.{MissionStep, MissionStepStatus}
use ai_hq.Missions.Transitions.{allowed_step_transition}
use ai_hq.Missions.Plan.{
  has_step_id, of_mission, step_before, first_step, is_incomplete, is_claimable, set_running,
  claim_step, claim_next_pending_step, step_row, moved_step, transition_step,
}

-- Ids are unique and below the counter; two steps of one mission stand at different positions; and
-- a step has started only after every step of its mission before it has succeeded.
pub record IsSequential (db : Db) : Type 0 where
  pub fresh : (s : MissionStep) → Memᴰ s db.steps → s.id < db.next_id
  pub unique : (s t : MissionStep) → Memᴰ s db.steps → Memᴰ t db.steps → s.id ≡ t.id → s ≡ t
  pub positions :
      (s t : MissionStep)
      → Memᴰ s db.steps
      → Memᴰ t db.steps
      → s.mission_id ≡ t.mission_id
      → s.position ≡ t.position
      → s ≡ t
  pub ordered :
      (s t : MissionStep)
      → Memᴰ s db.steps
      → Memᴰ t db.steps
      → s.mission_id ≡ t.mission_id
      → s.position < t.position
      → t.status ≢ MissionStepStatus.pending
      → s.status ≡ MissionStepStatus.succeeded

step_before-IsOrder : IsOrder step_before
step_before-IsOrder = record {
  irrefl = λ x. ground arith;
  asym = λ x y h. ground arith;
  neg_trans = λ x y z h k. ground arith;
}

-- An update that keeps ids, missions and positions keeps all but the order of starting.
module _ (db : Db) (inv : IsSequential db) (p : MissionStep → Bool)
    (f : MissionStep → MissionStep) where
  pub update-IsSequential :
      ((x : MissionStep) → Memᴰ x db.steps → p x ≡ true → (f x).id ≡ x.id)
      → ((x : MissionStep) → Memᴰ x db.steps → p x ≡ true → (f x).mission_id ≡ x.mission_id)
      → ((x : MissionStep) → Memᴰ x db.steps → p x ≡ true → (f x).position ≡ x.position)
      → ((s t : MissionStep)
          → Memᴰ s db.steps
          → Memᴰ t db.steps
          → s.mission_id ≡ t.mission_id
          → s.position < t.position
          → (updated p f t).status ≢ MissionStepStatus.pending
          → (updated p f s).status ≡ MissionStepStatus.succeeded)
      → IsSequential (record db { steps = update_where p f db.steps })
  update-IsSequential ids missions positions ordered = record {
    fresh = λ s ms.
        let (x, mx, ex) = mem-update_where p f db.steps s ms in
        rw (ap (λ (y : MissionStep). y.id) ex ∙ id_of x mx) (inv.fresh x mx);
    unique = λ s t ms mt e.
        let (x, mx, ex) = mem-update_where p f db.steps s ms in
        let (y, my, ey) = mem-update_where p f db.steps t mt in
        let same = inv.unique x y mx my (
          sym (id_of x mx)
          ∙ sym (ap (λ (z : MissionStep). z.id) ex)
          ∙ e
          ∙ ap (λ (z : MissionStep). z.id) ey
          ∙ id_of y my) in
        ex ∙ ap (updated p f) same ∙ sym ey;
    positions = λ s t ms mt e q.
        let (x, mx, ex) = mem-update_where p f db.steps s ms in
        let (y, my, ey) = mem-update_where p f db.steps t mt in
        let same =
          inv.positions x y mx my
            (sym (mission_of x mx)
              ∙ sym (ap (λ (z : MissionStep). z.mission_id) ex)
              ∙ e
              ∙ ap (λ (z : MissionStep). z.mission_id) ey
              ∙ mission_of y my)
            (sym (position_of x mx)
              ∙ sym (ap (λ (z : MissionStep). z.position) ex)
              ∙ q
              ∙ ap (λ (z : MissionStep). z.position) ey
              ∙ position_of y my) in
        ex ∙ ap (updated p f) same ∙ sym ey;
    ordered = λ s t ms mt e q n.
        let (x, mx, ex) = mem-update_where p f db.steps s ms in
        let (y, my, ey) = mem-update_where p f db.steps t mt in
        ap (λ (z : MissionStep). z.status) ex
        ∙ ordered x y mx my
            (sym (mission_of x mx)
              ∙ sym (ap (λ (z : MissionStep). z.mission_id) ex)
              ∙ e
              ∙ ap (λ (z : MissionStep). z.mission_id) ey
              ∙ mission_of y my)
            (rw
              (
                ← position_of x mx,
                ← position_of y my,
                ← ap (λ (z : MissionStep). z.position) ex,
                ← ap (λ (z : MissionStep). z.position) ey,
              )
              q)
            (λ k. n (ap (λ (z : MissionStep). z.status) ey ∙ k));
  }
    where
      id_of : (x : MissionStep) → Memᴰ x db.steps → (updated p f x).id ≡ x.id
      id_of x mx = elim (Bool-cases (p x)) [ inl t ↦ rw t (ids x mx t) | inr t ↦ rw t refl ]

      mission_of : (x : MissionStep) → Memᴰ x db.steps → (updated p f x).mission_id ≡ x.mission_id
      mission_of x mx = elim (Bool-cases (p x)) [
        | inl t ↦ rw t (missions x mx t)
        | inr t ↦ rw t refl
      ]

      position_of : (x : MissionStep) → Memᴰ x db.steps → (updated p f x).position ≡ x.position
      position_of x mx = elim (Bool-cases (p x)) [
        | inl t ↦ rw t (positions x mx t)
        | inr t ↦ rw t refl
      ]

-- The first incomplete step of a mission, and what stands before it.
first_incomplete_done :
    (mission_id : ℕ) (db : Db) (first s : MissionStep)
    → first_step is_incomplete mission_id db ≡ some first
    → Memᴰ s db.steps
    → s.mission_id ≡ mission_id
    → s.position < first.position
    → s.status ≡ MissionStepStatus.succeeded
unfolding first_step
first_incomplete_done mission_id db first s h ms m q = elim (Bool-cases (is_incomplete s.status)) [
  | inl t ↦ absurd (
      cc (
        earlier,
        first_by-least step_before step_before-IsOrder _ first s h (
            mem-where_rows (λ x. of_mission mission_id x && is_incomplete x.status) db.steps s ms
              (ground (arith, t, m))),
      ))
  | inr t ↦ ground (arith, t)
]
  where
    earlier : step_before s first ≡ true
    earlier = ground arith

pub first_incomplete-mem :
    (mission_id : ℕ) (db : Db) (first : MissionStep)
    → first_step is_incomplete mission_id db ≡ some first
    → Memᴰ first db.steps × (first.mission_id ≡ mission_id)
unfolding first_step
first_incomplete-mem mission_id db first h =
    let (m, t) =
      where_rows-mem (λ x. of_mission mission_id x && is_incomplete x.status) db.steps first
        (first_by-mem step_before _ first h) in
    (m, ground (arith, t))

claim_step-IsSequential :
    (mission_id : ℕ) (db : Db) (first : MissionStep)
    → IsSequential db
    → first_step is_incomplete mission_id db ≡ some first
    → IsSequential (claim_step first.id db).1
unfolding claim_step
claim_step-IsSequential mission_id db first inv h =
    elim (Bool-cases (row_count (is_claimable first.id) db.steps == 1)) [
      | inr t ↦ rw (t, claim_step) inv
      | inl t ↦
          rw (t, claim_step)
            (update-IsSequential db inv (is_claimable first.id) set_running (λ x mx c. refl)
              (λ x mx c. refl) (λ x mx c. refl)
              (λ s u ms mu e q n. elim (Bool-cases (is_claimable first.id u)) [
                | inl c ↦
                    let same =
                      inv.unique u first mu (first_incomplete-mem mission_id db first h).0
                        (ground (arith, c)) in
                    keeps s (
                      first_incomplete_done mission_id db first s h ms
                        (e
                          ∙ ap (λ (z : MissionStep). z.mission_id) same
                          ∙ (first_incomplete-mem mission_id db first h).1)
                        (rw (← same) q))
                | inr c ↦ keeps s (inv.ordered s u ms mu e q (rw c at n))
              ]))
    ]
  where
    keeps :
        (s : MissionStep)
        → s.status ≡ MissionStepStatus.succeeded
        → (updated (is_claimable first.id) set_running s).status ≡ MissionStepStatus.succeeded
    keeps s st = ground (arith, st)

-- Claiming the next step of a mission keeps the plans in order.
pub claim_next_pending_step-IsSequential :
    (mission_id : ℕ) (db : Db)
    → IsSequential db
    → IsSequential (claim_next_pending_step mission_id db).1
unfolding claim_next_pending_step
claim_next_pending_step-IsSequential mission_id db inv =
    elim (Option-cases (first_step is_incomplete mission_id db)) [
      | inl n ↦ rw (n, claim_next_pending_step) inv
      | inr (first, e) ↦
          rw (e, claim_next_pending_step) (claim_step-IsSequential mission_id db first inv e)
    ]

module _ (step_id : ℕ) (target : MissionStepStatus) (r e : Option Fields) (a : Option ℕ)
    (db : Db) where
  moved_step-IsSequential :
      (step : MissionStep)
      → IsSequential db
      → step_row step_id db ≡ some step
      → step.status ≢ MissionStepStatus.pending
      → allowed_step_transition step.status target ≡ true
      → IsSequential (record db {
        steps = update_where (has_step_id step_id) (λ _. moved_step target r e a step) db.steps;
      })
  unfolding moved_step step_row allowed_step_transition
  moved_step-IsSequential step inv row started t =
      update-IsSequential db inv (has_step_id step_id) (λ _. moved_step target r e a step)
        (λ x mx c. ap (λ (z : MissionStep). z.id) (sym (same x mx c)))
        (λ x mx c. ap (λ (z : MissionStep). z.mission_id) (sym (same x mx c)))
        (λ x mx c. ap (λ (z : MissionStep). z.position) (sym (same x mx c)))
        (λ s u ms mu e q n. kept s u ms mu e q n (done s u ms mu e q n))
    where
      mem_row : Memᴰ step db.steps × (has_step_id step_id step ≡ true)
      mem_row = find-mem (has_step_id step_id) db.steps step row

      same : (x : MissionStep) → Memᴰ x db.steps → has_step_id step_id x ≡ true → x ≡ step
      same x mx c = inv.unique x step mx mem_row.0 (ground (arith, c, mem_row.1))

      f : MissionStep → MissionStep
      f = updated (has_step_id step_id) (λ _. moved_step target r e a step)

      done :
          (s u : MissionStep)
          → Memᴰ s db.steps
          → Memᴰ u db.steps
          → s.mission_id ≡ u.mission_id
          → s.position < u.position
          → (f u).status ≢ MissionStepStatus.pending
          → s.status ≡ MissionStepStatus.succeeded
      done s u ms mu e q n = inv.ordered s u ms mu e q (elim (Bool-cases (has_step_id step_id u)) [
        | inl c ↦ λ k. started (ap (λ (z : MissionStep). z.status) (sym (same u mu c)) ∙ k)
        | inr c ↦ rw c at n
      ])

      kept :
          (s u : MissionStep)
          → Memᴰ s db.steps
          → Memᴰ u db.steps
          → s.mission_id ≡ u.mission_id
          → s.position < u.position
          → (f u).status ≢ MissionStepStatus.pending
          → s.status ≡ MissionStepStatus.succeeded
          → (f s).status ≡ MissionStepStatus.succeeded
      kept s u ms mu e q n st = elim (Bool-cases (has_step_id step_id s)) [
        | inl c ↦ absurd (ground (arith, t, st, ap (λ (z : MissionStep). z.status) (same s ms c)))
        | inr c ↦ rw c st
      ]

-- Moving a step that has started keeps the plans in order.
pub transition_step-IsSequential :
    (step_id : ℕ) (target : MissionStepStatus) (r e : Option Fields) (a : Option ℕ) (db : Db)
    → IsSequential db
    → ((s : MissionStep) → step_row step_id db ≡ some s → s.status ≢ MissionStepStatus.pending)
    → IsSequential (transition_step step_id target r e a db).1
unfolding transition_step
transition_step-IsSequential step_id target r e a db inv started =
    elim (Option-cases (step_row step_id db)) [
      | inl n ↦ rw (n, transition_step) inv
      | inr (step, row) ↦ elim (Bool-cases (allowed_step_transition step.status target)) [
        | inr t ↦ rw (row, transition_step) (rw t inv)
        | inl t ↦
            rw (row, transition_step)
              (rw t
                (moved_step-IsSequential step_id target r e a db step inv row (started step row) t))
      ]
    ]
