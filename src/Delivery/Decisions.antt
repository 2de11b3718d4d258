-- ===== src/Delivery/Decisions.antt =====
-- delivery/service.py: applying the decision of a person to the change that it was asked for.
use ai_hq.Prelude.{ℕ, String, Bool, false, not, Option, none, some, ◌==◌, leb, str_eq}
use ai_hq.Prelude.Result.{Result, Exec, ok, err, key_error, value_error}
use ai_hq.Prelude.Checks.{◌>>=◌, check, found}
use ai_hq.Tables.{Db}
use ai_hq.Tables.Missions.{Mission, MissionStatus}
use ai_hq.Tables.Approvals.{
  ApprovalState, same_approval_state, pending, approved, denied, cancelled,
}
use ai_hq.Tables.Deliveries.{Delivery, DeliveryStage, same_stage, developer}
use ai_hq.Missions.Lifecycle.{put_mission}
use ai_hq.Approvals.Requests.{request_row}
use ai_hq.Delivery.Proposals.{put_delivery, handoff, after}
use ai_hq.Delivery.Releases.{plans_change}

abbrev pub same_reference : Option ℕ → ℕ → Bool
same_reference none id = false
same_reference (some k) id = k == id

unfoldable pub decision_check :
    ℕ → ℕ → ℕ → String → Db → Result (ApprovalState × Mission × Delivery)
unfolding handoff request_row plans_change
decision_check now mission_id reference change_ref db = handoff mission_id db >>= λ rows.
    check (same_stage rows.1.stage DeliveryStage.waiting_approval)
      "delivery is not waiting for human approval"
      (check (same_reference rows.1.approval_reference reference)
        "approval reference does not match delivery"
        (check (str_eq rows.1.change_ref change_ref) "change_ref does not match approved proposal" (
          found (request_row reference db) (key_error "approval request not found") >>= λ approval.
          check (approval.mission_id == mission_id) "approval mission does not match delivery" (
            check (str_eq approval.target rows.1.change_ref)
              "approval target does not match change_ref"
              (check (plans_change approval.action_plan rows.1.change_ref)
                "approval action plan does not match change_ref"
                (check (not (leb approval.expires_at now)) "approval request expired" (
                  check (not (same_approval_state approval.state pending))
                    "approval request has not been decided"
                    (ok (approval.state, rows.0, rows.1)))))))))

unfoldable pub returned : Mission → Delivery → Exec Db Delivery
unfolding put_delivery put_mission
returned mission d db =
    let d' : Delivery = record d { stage = developer; approval_reference = none } in
    let mission' : Mission = record mission { status = MissionStatus.running } in
    (ok d', put_delivery d' (put_mission mission' db))

-- An approval is authorisation only; a refusal sends the change back to the developer.
unfoldable pub decision_applied : ApprovalState × Mission × Delivery → Exec Db Delivery
unfolding returned
decision_applied (approved, mission, d) db = (ok d, db)
decision_applied (pending, mission, d) db = (err (value_error "unsupported approval state"), db)
decision_applied (denied, mission, d) db = returned mission d db
decision_applied (cancelled, mission, d) db = returned mission d db

unfoldable pub apply_human_decision : ℕ → ℕ → ℕ → String → Exec Db Delivery
unfolding decision_check decision_applied
apply_human_decision now mission_id reference change_ref db =
    after (decision_check now mission_id reference change_ref db) decision_applied db
