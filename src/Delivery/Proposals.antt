-- ===== src/Delivery/Proposals.antt =====
-- delivery/service.py: the developer's proposal and the result of QA.
-- A moment is a number of seconds. All readings of the clock in one call give the same moment.
-- Text arguments are texts, so the `isinstance` tests pass.
use ai_hq.Prelude.{
  ℕ, suc, ◌+◌, String, Bool, not, Option, none, some, List, [], ◌∷◌, ◌++◌, ◌==◌, if◌then◌else◌,
  str_eq, is_none,
}
use ai_hq.Prelude.Result.{Result, Exec, ok, err, key_error, value_error}
use ai_hq.Prelude.Checks.{◌>>=◌, check, found}
use ai_hq.Prelude.Rows.{find, update_where}
use ai_hq.Json.{Json, Items, Fields, num, text, arr, obj, nil, cons, end, field}
use ai_hq.Tables.{Db}
use ai_hq.Tables.Missions.{Mission, MissionStatus, same_status}
use ai_hq.Tables.Approvals.{ApprovalRequest}
use ai_hq.Tables.Deliveries.{
  Delivery, DeliveryStage, QaResult, same_stage, developer, qa, passed, failed,
}
use ai_hq.Missions.Lifecycle.{mission_row, put_mission}
use ai_hq.Approvals.Requests.{NewRequest, create_request}
use ai_hq.Delivery.Identity.{is_blank}

abbrev pub delivers : ℕ → Delivery → Bool
delivers mission_id d = d.mission_id == mission_id

unfoldable pub delivery_row : ℕ → Db → Option Delivery
unfolding find
delivery_row mission_id db = find (delivers mission_id) db.deliveries

-- The flush of a changed row.
unfoldable pub put_delivery : Delivery → Db → Db
unfolding update_where
put_delivery d db = record db {
  deliveries = update_where (delivers d.mission_id) (λ _. d) db.deliveries;
}

unfoldable pub get_delivery : ℕ → Exec Db Delivery
unfolding delivery_row
get_delivery mission_id db =
    (found (delivery_row mission_id db) (key_error "delivery not found for mission"), db)

-- What a method writes after its checks, and that it writes nothing if a check raises.
abbrev pub after : {A B : Type 0} → Result A → (A → Exec Db B) → Exec Db B
after (ok a) f db = f a db
after (err e) f db = (err e, db)

abbrev proposal : ℕ → ℕ → String → String → List Json → Fields → Delivery
proposal id mission_id change_ref summary changed_files evidence = record {
  id = id;
  mission_id = mission_id;
  stage = qa;
  change_ref = change_ref;
  summary = summary;
  changed_files = changed_files;
  developer_evidence = evidence;
  qa_result = none;
  qa_evidence = none;
  approval_reference = none;
  published_branch = none;
  published_commit = none;
  published_tree = none;
  published_at = none;
  deployment_release_id = none;
  deployment_prior_release_id = none;
  deployed_at = none;
  rollback_release_id = none;
  rolled_back_at = none;
}

-- The mission as the first assignment leaves it: a queued one runs.
abbrev pub started : Mission → Mission
started m =
    if same_status m.status MissionStatus.queued
    then record m { status = MissionStatus.running }
    else m

unfoldable pub proposal_check : ℕ → String → String → Db → Result Mission
unfolding is_blank mission_row delivery_row
proposal_check mission_id change_ref summary db =
    check (not (is_blank change_ref)) "change_ref is required" (
      check (not (is_blank summary)) "summary is required" (
        found (mission_row mission_id db) (key_error "mission not found") >>= λ mission.
        check (is_none (delivery_row mission_id db)) "mission already has a developer proposal" (
          check (same_status (started mission).status MissionStatus.running)
            "mission must be QUEUED or RUNNING for developer submission" (ok (started mission)))))

unfoldable pub submitted : ℕ → String → String → List Json → Fields → Mission → Exec Db Delivery
unfolding put_mission
submitted mission_id change_ref summary changed_files evidence mission db =
    let d : Delivery = proposal db.next_id mission_id change_ref summary changed_files evidence in
    let with_mission : Db = put_mission mission db in
    (ok d, record with_mission { deliveries = db.deliveries ++ d ∷ []; next_id = suc db.next_id })

unfoldable pub submit_developer_proposal :
    ℕ → String → String → List Json → Fields → Exec Db Delivery
unfolding proposal_check submitted
submit_developer_proposal mission_id change_ref summary changed_files evidence db =
    after (proposal_check mission_id change_ref summary db)
      (submitted mission_id change_ref summary changed_files evidence) db

-- `QAResult(result)`
unfoldable pub qa_result_of : String → Option QaResult
qa_result_of result =
    if str_eq result "PASSED"
    then some passed
    else if str_eq result "FAILED"
    then some failed
    else none

-- The rows that a method of the service reads first.
unfoldable pub handoff : ℕ → Db → Result (Mission × Delivery)
unfolding mission_row delivery_row
handoff mission_id db =
    found (mission_row mission_id db) (key_error "mission not found") >>= λ mission.
    found (delivery_row mission_id db) (key_error "delivery not found for mission") >>= λ d.
    ok (mission, d)

-- The last check of the method, which a failed QA does not need.
abbrev pub tested : QaResult → Mission → Delivery → Result (QaResult × Mission × Delivery)
tested failed mission d = ok (failed, mission, d)
tested passed mission d =
    check (same_status mission.status MissionStatus.running)
      "mission must be RUNNING before approval" (ok (passed, mission, d))

unfoldable pub qa_check : ℕ → String → String → Db → Result (QaResult × Mission × Delivery)
unfolding qa_result_of handoff
qa_check mission_id change_ref result db =
    found (qa_result_of result) (value_error "not a valid QAResult") >>= λ outcome.
    handoff mission_id db >>= λ rows.
    check (same_stage rows.1.stage qa) "delivery is not awaiting QA" (
      check (str_eq rows.1.change_ref change_ref) "change_ref does not match developer proposal"
        (tested outcome rows.0 rows.1))

unfoldable pub to_items : List Json → Items
to_items [] = nil
to_items (x ∷ xs) = cons x (to_items xs)

-- `action_plan` of the request that a passed QA makes.
unfoldable pub delivery_plan : Delivery → Fields → Json
unfolding to_items
delivery_plan d evidence = obj (
    field "change_ref" (text d.change_ref) (
      field "summary" (text d.summary) (
        field "changed_files" (arr (to_items d.changed_files)) (
          field "developer_evidence" (obj d.developer_evidence)
            (field "qa_evidence" (obj evidence) end)))))

unfoldable pub delivery_request : ℕ → Mission → Delivery → Fields → NewRequest
unfolding delivery_plan
delivery_request now mission d evidence = record {
  mission_id = mission.id;
  requester_agent = "qa";
  action = "approve_delivery_change";
  target = d.change_ref;
  risk = mission.risk;
  action_plan = delivery_plan d evidence;
  expires_at = now + 86400;
}

abbrev pub passed_qa : ℕ → Fields → Delivery → Delivery
passed_qa reference evidence d = record d {
  qa_result = some passed;
  qa_evidence = some evidence;
  stage = DeliveryStage.waiting_approval;
  approval_reference = some reference;
}

-- Ids are numbers here, so the reference stands in the mission's list as a number.
abbrev pub asking : ℕ → String → Mission → Mission
asking reference change_ref m = record m {
  status = MissionStatus.waiting_approval;
  approval_references =
      m.approval_references
      ++ obj (field "approval_reference" (num reference) (field "change_ref" (text change_ref) end))
        ∷ [];
}

-- The two branches of the method once its checks have passed.
unfoldable pub qa_recorded :
    (Json → String) → ℕ → Fields → QaResult × Mission × Delivery → Exec Db Delivery
unfolding create_request put_mission put_delivery delivery_request
qa_recorded digest now evidence (failed, mission, d) db =
    let d' : Delivery = record d {
      qa_result = some failed;
      qa_evidence = some evidence;
      stage = developer;
      approval_reference = none;
    } in
    (ok d', put_delivery d' db)
qa_recorded digest now evidence (passed, mission, d) db =
    let asked : ApprovalRequest × Db =
      create_request digest (delivery_request now mission d evidence) db in
    let d' : Delivery = passed_qa asked.0.id evidence d in
    (ok d', put_delivery d' (put_mission (asking asked.0.id d.change_ref mission) asked.1))

unfoldable pub record_qa_result :
    (Json → String) → ℕ → ℕ → String → String → Fields → Exec Db Delivery
unfolding qa_check qa_recorded
record_qa_result digest now mission_id change_ref result evidence db =
    after (qa_check mission_id change_ref result db) (qa_recorded digest now evidence) db
