-- ===== src/Delivery/Refusals.antt =====
-- delivery/service.py and approvals/service.py: a call that raises leaves the tables as they were.
use ai_hq.Prelude.{ℕ, String, Option, ◌≡◌, refl, true, false, Bool, arith}
use ai_hq.Prelude.Result.{Result, Exec, ok, err, is_ok}
use ai_hq.Json.{Json, Fields}
use ai_hq.Tables.{Db}
use ai_hq.Tables.Missions.{Mission}
use ai_hq.Tables.Approvals.{ApprovalState, pending, approved, denied, cancelled}
use ai_hq.Tables.Deliveries.{Delivery, QaResult, passed, failed}
use ai_hq.Approvals.Requests.{decide}
use ai_hq.Approvals.Decisions.{create, decision, request_call}
use ai_hq.Approvals.Written.{decide_refused}
use ai_hq.Delivery.Proposals.{
  after, proposal_check, submitted, submit_developer_proposal, qa_check, qa_recorded,
  record_qa_result,
}
use ai_hq.Delivery.Releases.{
  record_publication, record_deployment, record_rollback, published, deployed, rolled_back,
  publication_guard, deployment_guard, rollback_guard,
}
use ai_hq.Delivery.Decisions.{decision_check, apply_human_decision, decision_applied, returned}
use ai_hq.Delivery.Calls.{
  DeliveryCall, submit, test, record_published, record_deployed, record_restored, apply_decision,
  request, delivery_call,
}

module _ (digest : Json → String) where
  -- Whether a call returned.
  unfoldable pub delivery_ok : DeliveryCall → Db → Bool
  delivery_ok (submit id ref summary files e) db =
      is_ok (submit_developer_proposal id ref summary files e db).0
  delivery_ok (test now id ref result e) db =
      is_ok (record_qa_result digest now id ref result e db).0
  delivery_ok (record_published now id ref b c t) db =
      is_ok (record_publication now id ref b c t db).0
  delivery_ok (record_deployed now id ref r p) db = is_ok (record_deployment now id ref r p db).0
  delivery_ok (record_restored now id ref r) db = is_ok (record_rollback now id ref r db).0
  delivery_ok (apply_decision now id k ref) db = is_ok (apply_human_decision now id k ref db).0
  delivery_ok (request (create new)) db = true
  delivery_ok (request (decision now id state)) db = is_ok (decide now id state db).0

after_unchanged :
    {A B : Type 0} (r : Result A) (f : A → Exec Db B) (db : Db)
    → ((a : A) → is_ok (f a db).0 ≡ false → (f a db).1 ≡ db)
    → is_ok (after r f db).0 ≡ false
    → (after r f db).1 ≡ db
after_unchanged (ok a) f db g h = g a h
after_unchanged (err e) f db g h = refl

published_unchanged :
    (now : ℕ) (b c t : String) (db : Db) (d : Delivery)
    → is_ok (published now b c t d db).0 ≡ false
    → (published now b c t d db).1 ≡ db
unfolding published
published_unchanged now b c t db d h = ground arith

deployed_unchanged :
    (now : ℕ) (r : String) (p : Option String) (db : Db) (d : Delivery)
    → is_ok (deployed now r p d db).0 ≡ false
    → (deployed now r p d db).1 ≡ db
unfolding deployed
deployed_unchanged now r p db d h = ground arith

rolled_back_unchanged :
    (now : ℕ) (r : String) (db : Db) (d : Delivery)
    → is_ok (rolled_back now r d db).0 ≡ false
    → (rolled_back now r d db).1 ≡ db
unfolding rolled_back
rolled_back_unchanged now r db d h = ground arith

qa_recorded_unchanged :
    (digest : Json → String) (now : ℕ) (e : Fields) (db : Db) (x : QaResult × Mission × Delivery)
    → is_ok (qa_recorded digest now e x db).0 ≡ false
    → (qa_recorded digest now e x db).1 ≡ db
unfolding qa_recorded
qa_recorded_unchanged digest now e db (passed, m, d) h = cc
qa_recorded_unchanged digest now e db (failed, m, d) h = cc

decision_applied_unchanged :
    (db : Db) (x : ApprovalState × Mission × Delivery)
    → is_ok (decision_applied x db).0 ≡ false
    → (decision_applied x db).1 ≡ db
unfolding decision_applied returned
decision_applied_unchanged db (approved, m, d) h = refl
decision_applied_unchanged db (pending, m, d) h = refl
decision_applied_unchanged db (denied, m, d) h = cc
decision_applied_unchanged db (cancelled, m, d) h = cc

-- A call of the delivery service, or a decision of a person, that raises changes no table.
pub refused_unchanged :
    (digest : Json → String) (c : DeliveryCall) (db : Db)
    → delivery_ok digest c db ≡ false
    → delivery_call digest c db ≡ db
unfolding delivery_ok delivery_call submit_developer_proposal record_qa_result record_publication
    record_deployment record_rollback apply_human_decision submitted request_call
refused_unchanged digest (submit id ref summary files e) db h =
    after_unchanged (proposal_check id ref summary db) (submitted id ref summary files e) db
      (λ m k. cc) h
refused_unchanged digest (test now id ref result e) db h =
    after_unchanged (qa_check id ref result db) (qa_recorded digest now e) db
      (qa_recorded_unchanged digest now e db) h
refused_unchanged digest (record_published now id ref b c t) db h =
    after_unchanged (publication_guard now id ref b c t db) (published now b c t) db
      (published_unchanged now b c t db) h
refused_unchanged digest (record_deployed now id ref r p) db h =
    after_unchanged (deployment_guard now id ref r p db) (deployed now r p) db
      (deployed_unchanged now r p db) h
refused_unchanged digest (record_restored now id ref r) db h =
    after_unchanged (rollback_guard now id ref r db) (rolled_back now r) db
      (rolled_back_unchanged now r db) h
refused_unchanged digest (apply_decision now id k ref) db h =
    after_unchanged (decision_check now id k ref db) decision_applied db
      (decision_applied_unchanged db) h
refused_unchanged digest (request (create new)) db h = cc
refused_unchanged digest (request (decision now id state)) db h = decide_refused now id state db h
