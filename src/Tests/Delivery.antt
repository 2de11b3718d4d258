-- ===== src/Tests/Delivery.antt =====
-- Deliveries: a change in QA, the same after its release, and calls on them.
use ai_hq.Prelude.{String, true, false, none, some, List, [], ◌∷◌, ◌≡◌, refl, inl, arith, subst}
use ai_hq.Prelude.Rows.{find}
use ai_hq.Prelude.Result.{is_ok}
use ai_hq.Json.{text, obj, end, field}
use ai_hq.Tables.{Db}
use ai_hq.Tables.Missions.{MissionStatus}
use ai_hq.Tables.Approvals.{ApprovalRequest, approved}
use ai_hq.Tables.Deliveries.{Delivery, DeliveryStage, qa, developer, passed}
use ai_hq.Missions.Lifecycle.{mission_row}
use ai_hq.Approvals.Requests.{request_row, decide}
use ai_hq.Delivery.Identity.{is_candidate_branch, is_git_sha}
use ai_hq.Delivery.Proposals.{delivery_row, record_qa_result}
use ai_hq.Delivery.Releases.{record_rollback, record_publication, record_deployment}
use ai_hq.Delivery.Steps.{IsReleasable}
use ai_hq.Delivery.Sound.{AllSound, IsSound}
use ai_hq.Delivery.Calls.{
  DeliveryCall, record_published, record_deployed, record_restored, delivery_call, delivery_calls,
  returned_forever,
}
use ai_hq.Delivery.Consent.{publication, record_release, release_consented, HasHistory}
use ai_hq.Delivery.Course.{rolled_back, Course, phase_of, delivery_calls-Course}
use ai_hq.Delivery.Handover.{IsAsked, IsPublishedAs, approved-publication}
use ai_hq.Delivery.Permanent.{Preserves, release_permanent}
use ai_hq.Delivery.Persists.{delivery_calls-IsSound}
use ai_hq.Delivery.Refusals.{delivery_ok, refused_unchanged}
use ai_hq.Tests.Data.{base, sample_digest, mission_at, request_at}

abbrev pub sha : String
sha = "0123456789abcdef0123456789abcdef01234567"

abbrev pub branch : String
branch = "ai-hq/candidate/1"

abbrev in_qa_at : Delivery
in_qa_at = record {
  id = 5;
  mission_id = 1;
  stage = qa;
  change_ref = "c1";
  summary = "Fix";
  changed_files = [];
  developer_evidence = end;
  qa_result = none;
  qa_evidence = none;
  approval_reference = none;
  published_branch = none;
  published_commit = none;
  published_tree = none;
  published_at = none;
  deployment_release_id = none;
  deployment_prior_release_id = none;
  deployed_at = none;
  rollback_release_id = none;
  rolled_back_at = none;
}

-- A change in QA.
abbrev testing : Db
testing = record base { deliveries = in_qa_at ∷ [] }

abbrev change_request : ApprovalRequest
change_request = record (request_at 3) {
  action = "approve_delivery_change";
  target = "c1";
  action_plan = obj (field "change_ref" (text "c1") end);
}

abbrev pub waiting_at : Delivery
waiting_at = record in_qa_at {
  stage = DeliveryStage.waiting_approval;
  qa_result = some passed;
  approval_reference = some 3;
}

-- A change that a person has approved.
abbrev pub cleared : Db
cleared = record base { requests = change_request ∷ []; deliveries = waiting_at ∷ [] }

abbrev returned_at : Delivery
returned_at = record in_qa_at { stage = developer }

release : List DeliveryCall
release =
    record_published 10 1 "c1" branch sha sha
    ∷ record_deployed 11 1 "c1" "r2" (some "r1")
    ∷ record_restored 12 1 "c1" "r1"
    ∷ []

cleared_publishes : is_ok (record_release (publication branch sha sha) 10 1 "c1" cleared).0 ≡ true
unfolding record_release record_publication
cleared_publishes = refl

release_consented_example :
    (d : Delivery) × (delivery_row 1 cleared ≡ some d)
    × IsReleasable 10 cleared d
    × HasHistory (publication branch sha sha) d
release_consented_example =
    release_consented (publication branch sha sha) 10 1 "c1" cleared cleared_publishes

-- One row, which has not been released.
AllSound-one : (db : Db) (d : Delivery) → db.deliveries ≡ d ∷ [] → IsSound db d → AllSound db
unfolding delivery_row find
AllSound-one db d e s k x h = let g = rw e at h in subst (λ y. IsSound db y) (hit g) s
  where
    hit : delivery_row k (record db { deliveries = d ∷ [] }) ≡ some x → d ≡ x
    hit g = ground (arith, g)

fresh-IsSound : (db : Db) → IsSound db in_qa_at
fresh-IsSound db = record {
  publication = inl (record { branch = refl; commit = refl; tree = refl });
  deployment = inl (record { release = refl; prior = refl });
  rollback = inl refl;
}

cleared-AllSound : AllSound cleared
cleared-AllSound = AllSound-one cleared waiting_at refl (record {
  publication = inl (record { branch = refl; commit = refl; tree = refl });
  deployment = inl (record { release = refl; prior = refl });
  rollback = inl refl;
})

delivery_calls-IsSound_example : AllSound (delivery_calls sample_digest release cleared)
delivery_calls-IsSound_example =
    delivery_calls-IsSound sample_digest release cleared cleared-AllSound

delivery_calls-Course_example :
    Course
      (phase_of (delivery_row 1 cleared))
      (phase_of (delivery_row 1 (delivery_calls sample_digest release cleared)))
delivery_calls-Course_example =
    delivery_calls-Course sample_digest 1 release cleared cleared-AllSound

release_permanent_example :
    (d : Delivery) × (delivery_row 1 (delivery_calls sample_digest release cleared) ≡ some d)
    × Preserves waiting_at d
unfolding delivery_row find
release_permanent_example = release_permanent sample_digest 1 waiting_at release cleared refl

returned_forever_example :
    delivery_row 1
      (delivery_calls sample_digest release (record base { deliveries = returned_at ∷ [] }))
    ≡ some returned_at
unfolding delivery_row find
returned_forever_example =
    returned_forever sample_digest 1 returned_at release
      (record base { deliveries = returned_at ∷ [] }) refl refl

early_refused : delivery_ok sample_digest (record_deployed 11 1 "c1" "r2" none) cleared ≡ false
unfolding delivery_ok record_deployment
early_refused = refl

refused_unchanged_example :
    delivery_call sample_digest (record_deployed 11 1 "c1" "r2" none) cleared ≡ cleared
refused_unchanged_example =
    refused_unchanged sample_digest (record_deployed 11 1 "c1" "r2" none) cleared early_refused

testing-IsAsked : IsAsked 1 testing (mission_at 1 MissionStatus.running) in_qa_at
unfolding mission_row delivery_row request_row
testing-IsAsked = record {
  mission = refl;
  status = refl;
  row = refl;
  stage = refl;
  branch = refl;
  commit = refl;
  tree = refl;
  fresh = refl;
}

branch_valid : is_candidate_branch branch ≡ true
unfolding is_candidate_branch
branch_valid = refl

sha_valid : is_git_sha sha ≡ true
unfolding is_git_sha
sha_valid = refl

approved-publication_example :
    let after =
      record_publication 100 1 "c1" branch sha sha
        (decide 50 10 approved
          (record_qa_result sample_digest 20 1 "c1" "PASSED" end testing).1).1 in
    (is_ok after.0 ≡ true) × IsPublishedAs 100 1 "c1" branch sha sha after.1
approved-publication_example =
    approved-publication sample_digest 20 50 100 1 end branch sha sha testing
      (mission_at 1 MissionStatus.running) in_qa_at testing-IsAsked (omega arith) branch_valid
      sha_valid sha_valid

-- The release runs to its end.
release_rolls_back :
    phase_of (delivery_row 1 (delivery_calls sample_digest release cleared)) ≡ rolled_back
unfolding phase_of delivery_row delivery_calls release delivery_call record_rollback
    record_deployment record_publication
release_rolls_back = refl
