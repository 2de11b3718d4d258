-- ===== src/Missions/Claimed.antt =====
-- missions/service.py: which step a successful claim hands out.
use ai_hq.Prelude.{
  ℕ, true, some, ◌==◌, ◌≡◌, refl, ap, ◌∙◌, inl, inr, arith, Bool-cases, Option-cases,
}
use ai_hq.Prelude.Rows.{update_where, row_count}
use ai_hq.Prelude.Rows.Finds.{updated}
use ai_hq.Prelude.Rows.Members.{find-mem, mem-update_where}
use ai_hq.Prelude.Rows.Counts.{row_count-mem}
use ai_hq.Tables.{Db}
use ai_hq.Tables.Missions.{MissionStep, MissionStepStatus}
use ai_hq.Missions.Plan.{
  has_step_id, first_step, is_incomplete, is_claimable, set_running, claim_step,
  claim_next_pending_step,
}
use ai_hq.Missions.Sequential.{IsSequential, first_incomplete-mem}

-- The first step of the mission that has not succeeded, which was pending.
pub record IsNext (mission_id : ℕ) (db : Db) (step : MissionStep) : Type 0 where
  pub row : MissionStep
  pub first : first_step is_incomplete mission_id db ≡ some row
  pub pending : row.status ≡ MissionStepStatus.pending
  pub started : step ≡ set_running row

claim_step_lem :
    (mission_id : ℕ) (db : Db) (row step : MissionStep)
    → IsSequential db
    → first_step is_incomplete mission_id db ≡ some row
    → (claim_step row.id db).0 ≡ some step
    → IsNext mission_id db step
unfolding claim_step
claim_step_lem mission_id db row step inv first h =
    elim (Bool-cases (row_count (is_claimable row.id) db.steps == 1)) [
      | inr t ↦ cc (rw (claim_step, t) at h)
      | inl t ↦
          let (y, my, cy) = row_count-mem (is_claimable row.id) db.steps (ground (arith, t)) in
          let (mrow, _) = first_incomplete-mem mission_id db row first in
          let same = inv.unique y row my mrow (ground (arith, cy)) in
          let claimable : is_claimable row.id row ≡ true =
            rw (ap (is_claimable row.id) same) at cy in
          let (ms, ts) =
            find-mem (has_step_id row.id) (update_where (is_claimable row.id) set_running db.steps)
              step (rw (claim_step, t) at h) in
          let (x, mx, e) = mem-update_where (is_claimable row.id) set_running db.steps step ms in
          let from : x ≡ row = inv.unique x row mx mrow (came_from x e ts) in
          record {
            row = row;
            first = first;
            pending = ground (arith, claimable);
            started = e ∙ ap (updated (is_claimable row.id) set_running) from ∙ (rw claimable refl);
          }
    ]
  where
    came_from :
        (x : MissionStep)
        → step ≡ updated (is_claimable row.id) set_running x
        → has_step_id row.id step ≡ true
        → x.id ≡ row.id
    came_from x e t = let d = ap (λ (s : MissionStep). s.id) e in ground (arith, d, t)

-- A claim hands out the first step of the mission that has not succeeded, which was pending and
-- now runs.
pub claim_next_pending_step-IsNext :
    (mission_id : ℕ) (db : Db) (step : MissionStep)
    → IsSequential db
    → (claim_next_pending_step mission_id db).0 ≡ some step
    → IsNext mission_id db step
unfolding claim_next_pending_step
claim_next_pending_step-IsNext mission_id db step inv h =
    elim (Option-cases (first_step is_incomplete mission_id db)) [
      | inl n ↦ cc (rw (claim_next_pending_step, n) at h)
      | inr (row, e) ↦
          claim_step_lem mission_id db row step inv e (rw (claim_next_pending_step, e) at h)
    ]
