-- ===== src/Delivery/Persists.antt =====
-- delivery/service.py: every call keeps the approved requests, and with them what the columns of a
-- delivery say.
use ai_hq.Prelude.{ℕ, String, Option, some, List, [], ◌∷◌, ◌≡◌, arith}
use ai_hq.Prelude.Result.{Result, Exec, ok, err}
use ai_hq.Prelude.Rows.Finds.{find-append}
use ai_hq.Json.{Json, Fields}
use ai_hq.Tables.{Db}
use ai_hq.Tables.Missions.{Mission}
use ai_hq.Tables.Approvals.{ApprovalRequest, ApprovalState, pending, approved, denied, cancelled}
use ai_hq.Tables.Deliveries.{Delivery, QaResult, passed, failed}
use ai_hq.Approvals.Requests.{create_request, has_request_id, request_row}
use ai_hq.Approvals.Decisions.{decision_final, request_calls}
use ai_hq.Missions.Lifecycle.{put_mission}
use ai_hq.Delivery.Proposals.{
  after, put_delivery, submit_developer_proposal, submitted, qa_recorded, record_qa_result,
  proposal_check, qa_check,
}
use ai_hq.Delivery.Releases.{
  publication_guard, deployment_guard, rollback_guard, record_publication, record_deployment,
  record_rollback, published, deployed, rolled_back,
}
use ai_hq.Delivery.Decisions.{decision_check, apply_human_decision, decision_applied, returned}
use ai_hq.Delivery.Sound.{AllSound, Persists, Advance-IsSound}
use ai_hq.Delivery.Calls.{
  DeliveryCall, submit, test, record_published, record_deployed, record_restored, apply_decision,
  request, delivery_call, delivery_call-Advance, delivery_calls,
}

after_keeps :
    {A : Type 0} (P : Db → Type 0) (r : Result A) (f : A → Exec Db Delivery) (db : Db)
    → P db
    → ((a : A) → P (f a db).1)
    → P (after r f db).1
after_keeps P (ok a) f db p q = q a
after_keeps P (err e) f db p q = p

module _ (k : ℕ) (r : ApprovalRequest) (db : Db) where
  -- The request is there unchanged.
  abbrev Stands : Db → Type 0
  Stands x = request_row k x ≡ some r

  module _ (h : Stands db) where
    submit-Stands :
        (id : ℕ) (ref summary : String) (files : List Json) (e : Fields) (m : Mission)
        → Stands (submitted id ref summary files e m db).1
    unfolding submitted put_mission request_row
    submit-Stands id ref summary files e m = h

    published-Stands :
        (now : ℕ) (b c t : String) (d : Delivery) → Stands (published now b c t d db).1
    unfolding published put_delivery request_row
    published-Stands now b c t d = ground arith

    deployed-Stands :
        (now : ℕ) (release_id : String) (prior : Option String) (d : Delivery)
        → Stands (deployed now release_id prior d db).1
    unfolding deployed put_delivery request_row
    deployed-Stands now release_id prior d = ground arith

    rolled_back-Stands :
        (now : ℕ) (release_id : String) (d : Delivery) → Stands (rolled_back now release_id d db).1
    unfolding rolled_back put_delivery request_row
    rolled_back-Stands now release_id d = ground arith

    qa-Stands :
        (digest : Json → String) (now : ℕ) (e : Fields) (x : QaResult × Mission × Delivery)
        → Stands (qa_recorded digest now e x db).1
    unfolding qa_recorded put_delivery put_mission create_request request_row
    qa-Stands digest now e (failed, m, d) = h
    qa-Stands digest now e (passed, m, d) = find-append (has_request_id k) db.requests _ h

    decision-Stands : (x : ApprovalState × Mission × Delivery) → Stands (decision_applied x db).1
    unfolding decision_applied returned put_delivery put_mission request_row
    decision-Stands (approved, m, d) = h
    decision-Stands (pending, m, d) = h
    decision-Stands (denied, m, d) = h
    decision-Stands (cancelled, m, d) = h

pub delivery_call-Persists :
    (digest : Json → String) (c : DeliveryCall) (db : Db) → Persists db (delivery_call digest c db)
unfolding delivery_call submit_developer_proposal record_qa_result record_publication
    record_deployment record_rollback apply_human_decision request_calls
delivery_call-Persists digest (submit id ref summary files e) db k r s h =
    after_keeps (Stands k r db) (proposal_check id ref summary db)
      (submitted id ref summary files e) db h (submit-Stands k r db h id ref summary files e)
delivery_call-Persists digest (test now id ref result e) db k r s h =
    after_keeps (Stands k r db) (qa_check id ref result db) (qa_recorded digest now e) db h
      (qa-Stands k r db h digest now e)
delivery_call-Persists digest (record_published now id ref b c t) db k r s h =
    after_keeps (Stands k r db) (publication_guard now id ref b c t db) (published now b c t) db h
      (published-Stands k r db h now b c t)
delivery_call-Persists digest (record_deployed now id ref x p) db k r s h =
    after_keeps (Stands k r db) (deployment_guard now id ref x p db) (deployed now x p) db h
      (deployed-Stands k r db h now x p)
delivery_call-Persists digest (record_restored now id ref x) db k r s h =
    after_keeps (Stands k r db) (rollback_guard now id ref x db) (rolled_back now x) db h
      (rolled_back-Stands k r db h now x)
delivery_call-Persists digest (apply_decision now id j ref) db k r s h =
    after_keeps (Stands k r db) (decision_check now id j ref db) decision_applied db h
      (decision-Stands k r db h)
delivery_call-Persists digest (request c) db k r s h =
    decision_final digest k r (c ∷ []) db (λ p. ground (arith, s, p)) h

-- Under every sequence of calls, what has been published waits with its QA passed and its request
-- approved; what has been deployed has been published; and what has been rolled back has been
-- deployed, and went back to the release that its deployment names.
pub delivery_calls-IsSound :
    (digest : Json → String) (cs : List DeliveryCall) (db : Db)
    → AllSound db
    → AllSound (delivery_calls digest cs db)
unfolding delivery_calls
delivery_calls-IsSound digest [] db s = s
delivery_calls-IsSound digest (c ∷ cs) db s =
    delivery_calls-IsSound digest cs (delivery_call digest c db) (λ k d e.
      Advance-IsSound (delivery_call-Persists digest c db) (delivery_call-Advance digest k c db)
        (s k) d e)
