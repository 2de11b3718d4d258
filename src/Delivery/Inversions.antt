-- ===== src/Delivery/Inversions.antt =====
-- delivery/service.py: what the checks of a method have found when they pass.
use ai_hq.Prelude.{Option-cases, inl, inr}
use ai_hq.Prelude.{ℕ, ◌<◌, String, true, some, ◌≡◌, arith, eq_iff}
use ai_hq.Prelude.Result.{ok}
use ai_hq.Prelude.Rows.Finds.{find_test}
use ai_hq.Tables.{Db}
use ai_hq.Tables.Missions.{Mission}
use ai_hq.Tables.Approvals.{ApprovalRequest, approved}
use ai_hq.Tables.Deliveries.{Delivery, DeliveryStage, passed}
use ai_hq.Missions.Lifecycle.{mission_row}
use ai_hq.Approvals.Requests.{request_row}
use ai_hq.Delivery.Proposals.{delivers, delivery_row, handoff}
use ai_hq.Delivery.Releases.{plans_change, approval_check, waiting_check}

pub delivery_row_mission :
    (id : ℕ) (db : Db) {d : Delivery} → delivery_row id db ≡ some d → d.mission_id ≡ id
unfolding delivery_row
delivery_row_mission id db {d} h =
    let t = find_test (delivers id) db.deliveries h in ground (arith, t)

pub handoff-eq-ok :
    (id : ℕ) (db : Db) {m : Mission} {d : Delivery}
    → handoff id db ≡ ok (m, d)
    → (mission_row id db ≡ some m) × (delivery_row id db ≡ some d)
unfolding handoff
handoff-eq-ok id db h = elim (Option-cases (mission_row id db)) [
  | inl n ↦ cc (rw n at h)
  | inr (m', em) ↦ elim (Option-cases (delivery_row id db)) [
    | inl n ↦ cc (rw (em, n) at h)
    | inr (d', ed) ↦ let e = rw (em, ed) at h in (cc, cc)
  ]
]

pub record IsWaiting (change_ref : String) (d : Delivery) (reference : ℕ) : Type 0 where
  pub change : d.change_ref ≡ change_ref
  pub stage : d.stage ≡ DeliveryStage.waiting_approval
  pub qa : d.qa_result ≡ some passed
  pub referred : d.approval_reference ≡ some reference

pub waiting_check-eq-ok :
    (what change_ref : String) (d : Delivery) {reference : ℕ}
    → waiting_check what change_ref d ≡ ok reference
    → IsWaiting change_ref d reference
unfolding waiting_check
waiting_check-eq-ok what change_ref d h = record {
  change = ground (arith, eq_iff d.change_ref change_ref);
  stage = ground arith;
  qa = ground arith;
  referred = ground arith;
}

-- The approved, unexpired request of a person for exactly this change of this mission.
pub record IsConsent (now mission_id : ℕ) (change_ref : String) (r : ApprovalRequest) : Type 0 where
  pub mission : r.mission_id ≡ mission_id
  pub target : r.target ≡ change_ref
  pub plan : plans_change r.action_plan change_ref ≡ true
  pub live : now < r.expires_at
  pub state : r.state ≡ approved

pub approval_check-eq-ok :
    (what : String) (now mission_id : ℕ) (change_ref : String) (reference : ℕ) (db : Db)
    {r : ApprovalRequest}
    → approval_check what now mission_id change_ref reference db ≡ ok r
    → (request_row reference db ≡ some r) × IsConsent now mission_id change_ref r
unfolding approval_check
approval_check-eq-ok what now mission_id change_ref reference db {r} h =
    elim (Option-cases (request_row reference db)) [
      | inl n ↦ cc (rw n at h)
      | inr (r', e) ↦
          let k = rw e at h in
          (
            ground arith,
            record {
              mission = ground (arith);
              target = ground (arith, eq_iff r'.target change_ref);
              plan = ground (arith);
              live = ground (arith);
              state = ground (arith);
            },
          )
    ]
