-- ===== src/Missions/Planning.antt =====
-- missions/service.py: what `create_plan` adds, and the order of the plans.
use ai_hq.Prelude.{
  ℕ, suc, ◌+◌, ◌≤◌, ◌<◌, Option, List, [], ◌∷◌, ◌++◌, ◌≡◌, ◌≢◌, sym, ap, ◌∙◌, inl, inr, arith,
  Bool-cases, Option-cases, length, Memᴰ,
}
use mathlib.Core.List.Memᴰ
use ai_hq.Prelude.Rows.{find}
use ai_hq.Prelude.Rows.Members.{find-none}
use ai_hq.Tables.{Db}
use ai_hq.Tables.Missions.{MissionStep, MissionStepStatus}
use ai_hq.Tools.{ToolRegistry}
use ai_hq.Missions.Lifecycle.{mission_row}
use ai_hq.Missions.Moves.{mission_row_id}
use ai_hq.Missions.Plan.{PlannedStep, number_steps, tools_registered, create_plan, of_mission}
use ai_hq.Missions.Sequential.{IsSequential}

-- What is known of a step of a new plan, numbered from `p` with ids from `i`.
pub record IsNumbered (m p i n : ℕ) (s : MissionStep) : Type 0 where
  pub low : p ≤ s.position
  pub high : s.position < p + n
  pub aligned : s.id + p ≡ s.position + i
  pub mission : s.mission_id ≡ m
  pub waits : s.status ≡ MissionStepStatus.pending

module _ (m : ℕ) where
  pub number_steps-IsNumbered :
      (p i : ℕ) (xs : List PlannedStep) (s : MissionStep)
      → Memᴰ s (number_steps m p i xs)
      → IsNumbered m p i (length xs) s
  unfolding number_steps
  number_steps-IsNumbered p i [] s ms = absurd (Memᴰ.not-nil ms)
  number_steps-IsNumbered p i (x ∷ xs) s (Memᴰ.head e) = rw e (ground arith)
  number_steps-IsNumbered p i (x ∷ xs) s (Memᴰ.tail ms) =
      let h = number_steps-IsNumbered (suc p) (suc i) xs s ms in ground (arith, h)

  number_steps_unique :
      (p i : ℕ) (xs : List PlannedStep) (s t : MissionStep)
      → Memᴰ s (number_steps m p i xs)
      → Memᴰ t (number_steps m p i xs)
      → s.position ≡ t.position
      → s ≡ t
  unfolding number_steps
  number_steps_unique p i [] s t ms mt e = absurd (Memᴰ.not-nil ms)
  number_steps_unique p i (x ∷ xs) s t (Memᴰ.head es) (Memᴰ.head et) e = es ∙ sym et
  number_steps_unique p i (x ∷ xs) s t (Memᴰ.head es) (Memᴰ.tail mt) e =
      let h = (number_steps-IsNumbered (suc p) (suc i) xs t mt).low in
      absurd (omega (arith, h, e, ap (λ (z : MissionStep). z.position) es))
  number_steps_unique p i (x ∷ xs) s t (Memᴰ.tail ms) (Memᴰ.head et) e =
      let h = (number_steps-IsNumbered (suc p) (suc i) xs s ms).low in
      absurd (omega (arith, h, e, ap (λ (z : MissionStep). z.position) et))
  number_steps_unique p i (x ∷ xs) s t (Memᴰ.tail ms) (Memᴰ.tail mt) e =
      number_steps_unique (suc p) (suc i) xs s t ms mt e

  -- Appending a plan for a mission that has no step yet.
  append-IsSequential :
      (db : Db) (xs : List PlannedStep)
      → IsSequential db
      → ((s : MissionStep) → Memᴰ s db.steps → s.mission_id ≢ m)
      → IsSequential (record db {
        steps = db.steps ++ number_steps m 1 db.next_id xs;
        next_id = db.next_id + length xs;
      })
  append-IsSequential db xs inv apart = record {
    fresh = λ s ms. elim (Memᴰ.append_cases db.steps ms) [
      | inl o ↦ omega (arith, inv.fresh s o)
      | inr n ↦ let h = numbered s n in omega (arith, h.high, h.aligned)
    ];
    unique = λ s t ms mt e. elim (Memᴰ.append_cases db.steps ms) [
      | inl o ↦ elim (Memᴰ.append_cases db.steps mt) [
        | inl o' ↦ inv.unique s t o o' e
        | inr n' ↦
            let h = numbered t n' in absurd (omega (arith, inv.fresh s o, h.low, h.aligned, e))
      ]
      | inr n ↦
          let h = numbered s n in
          elim (Memᴰ.append_cases db.steps mt) [
            | inl o' ↦ absurd (omega (arith, inv.fresh t o', h.low, h.aligned, e))
            | inr n' ↦
                let k = numbered t n' in
                number_steps_unique 1 db.next_id xs s t n n'
                  (omega (arith, h.aligned, k.aligned, e))
          ]
    ];
    positions = λ s t ms mt e q. elim (Memᴰ.append_cases db.steps ms) [
      | inl o ↦ elim (Memᴰ.append_cases db.steps mt) [
        | inl o' ↦ inv.positions s t o o' e q
        | inr n' ↦ absurd (apart s o (e ∙ (numbered t n').mission))
      ]
      | inr n ↦ elim (Memᴰ.append_cases db.steps mt) [
        | inl o' ↦ absurd (apart t o' (sym e ∙ (numbered s n).mission))
        | inr n' ↦ number_steps_unique 1 db.next_id xs s t n n' q
      ]
    ];
    ordered = λ s t ms mt e q started. elim (Memᴰ.append_cases db.steps mt) [
      | inr n' ↦ absurd (started (numbered t n').waits)
      | inl o' ↦ elim (Memᴰ.append_cases db.steps ms) [
        | inl o ↦ inv.ordered s t o o' e q started
        | inr n ↦ absurd (apart t o' (sym e ∙ (numbered s n).mission))
      ]
    ];
  }
    where
      numbered :
          (s : MissionStep)
          → Memᴰ s (number_steps m 1 db.next_id xs)
          → IsNumbered m 1 db.next_id (length xs) s
      numbered s ms = number_steps-IsNumbered 1 db.next_id xs s ms

-- Creating a plan keeps the plans in order, whether it is accepted or refused.
pub create_plan-IsSequential :
    (mission_id : ℕ) (steps : List PlannedStep) (registry : Option ToolRegistry) (db : Db)
    → IsSequential db
    → IsSequential (create_plan mission_id steps registry db).1
unfolding create_plan
create_plan-IsSequential mission_id [] registry db inv = inv
create_plan-IsSequential mission_id (x ∷ xs) registry db inv =
    elim (Bool-cases (tools_registered registry (x ∷ xs))) [
      | inr t ↦ rw (t, create_plan) inv
      | inl t ↦ elim (Option-cases (mission_row mission_id db)) [
        | inl n ↦ rw (t, create_plan) (rw n inv)
        | inr (m, row) ↦ elim (Option-cases (find (of_mission mission_id) db.steps)) [
          | inr (s, e) ↦ rw (t, create_plan) (rw row (rw e inv))
          | inl e ↦
              rw (t, create_plan)
                (rw row (
                  rw e (
                    append-IsSequential m.id db (x ∷ xs) inv (λ s ms k.
                      let c = find-none (of_mission mission_id) db.steps s e ms in
                      let i = mission_row_id mission_id db row in ground (arith, c, i, k)))))
        ]
      ]
    ]
