-- ===== src/Delivery/Handover.antt =====
-- delivery/service.py with approvals/service.py: a change that passes QA and is approved in time can
-- be published.
use ai_hq.Prelude.{
  ℕ, ◌+◌, ◌<◌, String, none, some, ◌≡◌, refl, ap, subst, ◌∙◌, true, arith, ◌==◌, leb, not, str_eq,
  eq_iff,
}
use mathlib.Core.Option
use ai_hq.Prelude.Result.{is_ok, ok}
use ai_hq.Prelude.Rows.{update_where}
use ai_hq.Prelude.Rows.Finds.{find-append_none, find-update_where, updated}
use ai_hq.Json.{Json, Fields, get_field}
use ai_hq.Tables.{Db}
use ai_hq.Tables.Missions.{Mission, MissionStatus}
use ai_hq.Tables.Approvals.{ApprovalRequest, approved, pending}
use ai_hq.Tables.Deliveries.{Delivery, DeliveryStage, passed, qa}
use ai_hq.Missions.Lifecycle.{has_id, mission_row, put_mission}
use ai_hq.Missions.Moves.{mission_row_id}
use ai_hq.Approvals.Written.{decide_lem}
use ai_hq.Approvals.Requests.{
  create_request, request_from, request_row, has_request_id, decide, decided,
}
use ai_hq.Delivery.Identity.{is_candidate_branch, is_git_sha}
use ai_hq.Delivery.Proposals.{
  handoff, delivery_row, put_delivery, record_qa_result, qa_check, qa_recorded, qa_result_of,
  delivery_request, delivery_plan, passed_qa, asking, delivers,
}
use ai_hq.Delivery.Releases.{
  plans_change, waiting_check, approval_check, publication_check, publication_guard, published,
  record_publication,
}
use ai_hq.Delivery.Inversions.{delivery_row_mission}

-- A delivery that waits, with its request approved.
pub record IsCleared (id reference : ℕ) (ref : String) (until : ℕ) (db : Db) : Type 0 where
  pub mission : Mission
  pub mission_there : mission_row id db ≡ some mission
  pub delivery : Delivery
  pub row : delivery_row id db ≡ some delivery
  pub change : delivery.change_ref ≡ ref
  pub stage : delivery.stage ≡ DeliveryStage.waiting_approval
  pub tested : delivery.qa_result ≡ some passed
  pub referred : delivery.approval_reference ≡ some reference
  pub branch : delivery.published_branch ≡ none
  pub commit : delivery.published_commit ≡ none
  pub tree : delivery.published_tree ≡ none
  pub request : ApprovalRequest
  pub request_there : request_row reference db ≡ some request
  pub owner : request.mission_id ≡ id
  pub target : request.target ≡ ref
  pub plan : plans_change request.action_plan ref ≡ true
  pub expiry : request.expires_at ≡ until
  pub state : request.state ≡ approved

str_eq_refl : (s : String) → str_eq s s ≡ true
str_eq_refl s = (eq_iff s s).1 refl

-- The delivery of the mission has the change and the branch, the commit, the tree and the moment of
-- its publication.
pub record IsPublishedAs (now id : ℕ) (ref branch commit tree : String) (db : Db) : Type 0 where
  pub delivery : Delivery
  pub row : delivery_row id db ≡ some delivery
  pub change : delivery.change_ref ≡ ref
  pub branch_written : delivery.published_branch ≡ some branch
  pub commit_written : delivery.published_commit ≡ some commit
  pub tree_written : delivery.published_tree ≡ some tree
  pub moment : delivery.published_at ≡ some now

-- Such a delivery passes the checks.
IsCleared-guard :
    (id reference : ℕ) (ref : String) (until now : ℕ) (branch commit tree : String) (db : Db)
    → is_candidate_branch branch ≡ true
    → is_git_sha commit ≡ true
    → is_git_sha tree ≡ true
    → now < until
    → (x : IsCleared id reference ref until db)
    → publication_guard now id ref branch commit tree db ≡ ok x.delivery
unfolding publication_guard publication_check handoff waiting_check approval_check
IsCleared-guard id reference ref until now branch commit tree db hb hc ht lt x =
    let live : not (leb x.request.expires_at now) ≡ true = let e = x.expiry in ground arith in
    let own : (x.request.mission_id == id) ≡ true = let e = x.owner in ground arith in
    rw
      (hb, hc, ht, x.mission_there, x.row, x.change, str_eq_refl ref, x.stage, x.tested, x.referred)
      (rw (x.request_there, own, x.target, str_eq_refl ref, x.plan, live, x.state) refl)

-- The first publication of a delivery writes it.
published_lem :
    (now id : ℕ) (branch commit tree : String) (d : Delivery) (db : Db)
    → delivery_row id db ≡ some d
    → d.published_branch ≡ none
    → d.published_commit ≡ none
    → d.published_tree ≡ none
    → (is_ok (published now branch commit tree d db).0 ≡ true)
      × IsPublishedAs now id d.change_ref branch commit tree
          (published now branch commit tree d db).1
unfolding published put_delivery delivery_row
published_lem now id branch commit tree d db h nb nc nt =
    let own = delivery_row_mission id db h in
    let d' : Delivery = record d {
      published_branch = some branch;
      published_commit = some commit;
      published_tree = some tree;
      published_at = some now;
    } in
    rw (nb, nc, nt)
      (
        refl,
        record {
          delivery = d';
          row =
              find-update_where (delivers id) (delivers d.mission_id) (λ _. d') db.deliveries
                (λ x. ground arith)
              ∙ ap (Option.map (updated (delivers d.mission_id) (λ _. d'))) h
              ∙ (let t : delivers d.mission_id d ≡ true = ground arith in rw t refl);
          change = refl;
          branch_written = refl;
          commit_written = refl;
          tree_written = refl;
          moment = refl;
        },
      )

-- Such a delivery can be published.
IsCleared-publication :
    (id reference : ℕ) (ref : String) (until now : ℕ) (branch commit tree : String) (db : Db)
    → is_candidate_branch branch ≡ true
    → is_git_sha commit ≡ true
    → is_git_sha tree ≡ true
    → now < until
    → IsCleared id reference ref until db
    → (is_ok (record_publication now id ref branch commit tree db).0 ≡ true)
      × IsPublishedAs now id ref branch commit tree
          (record_publication now id ref branch commit tree db).1
unfolding record_publication
IsCleared-publication id reference ref until now branch commit tree db hb hc ht lt x =
    let (fine, as_written) =
      published_lem now id branch commit tree x.delivery db x.row x.branch x.commit x.tree in
    rw (IsCleared-guard id reference ref until now branch commit tree db hb hc ht lt x) (
      fine,
      subst
          (λ r.
            IsPublishedAs now id r branch commit tree
              (published now branch commit tree x.delivery db).1)
          x.change as_written,
    )

-- A delivery in QA of a running mission, before anything of it is published, and an id that no
-- request has.
pub record IsAsked (id : ℕ) (db : Db) (m : Mission) (d : Delivery) : Type 0 where
  pub mission : mission_row id db ≡ some m
  pub status : m.status ≡ MissionStatus.running
  pub row : delivery_row id db ≡ some d
  pub stage : d.stage ≡ qa
  pub branch : d.published_branch ≡ none
  pub commit : d.published_commit ≡ none
  pub tree : d.published_tree ≡ none
  pub fresh : request_row db.next_id db ≡ none

-- The tables after a passed QA.
after_qa : (Json → String) → ℕ → Fields → Mission → Delivery → Db → Db
unfolding qa_recorded
after_qa digest now e m d db = (qa_recorded digest now e (passed, m, d) db).1

record_qa_result-after :
    (digest : Json → String) (now id : ℕ) (e : Fields) (db : Db) (m : Mission) (d : Delivery)
    → IsAsked id db m d
    → (record_qa_result digest now id d.change_ref "PASSED" e db).1 ≡ after_qa digest now e m d db
unfolding record_qa_result qa_check handoff after_qa qa_result_of
record_qa_result-after digest now id e db m d a =
    rw (a.mission, a.row, a.stage, str_eq_refl d.change_ref) (rw a.status refl)

after_qa-request :
    (digest : Json → String) (now : ℕ) (e : Fields) (db : Db) (m : Mission) (d : Delivery)
    → request_row db.next_id db ≡ none
    → request_row db.next_id (after_qa digest now e m d db)
      ≡ some (request_from digest db.next_id (delivery_request now m d e))
unfolding after_qa request_row create_request put_mission put_delivery request_from
after_qa-request digest now e db m d n =
    find-append_none (has_request_id db.next_id) db.requests _ n
    ∙ (let t : (db.next_id == db.next_id) ≡ true = ground arith in rw t refl)

after_qa-mission :
    (digest : Json → String) (now id : ℕ) (e : Fields) (db : Db) (m : Mission) (d : Delivery)
    → mission_row id db ≡ some m
    → mission_row id (after_qa digest now e m d db) ≡ some (asking db.next_id d.change_ref m)
unfolding after_qa mission_row create_request put_mission put_delivery
after_qa-mission digest now id e db m d h =
    let own = mission_row_id id db h in
    find-update_where (has_id id) (has_id m.id) (λ _. asking db.next_id d.change_ref m) db.missions
      (λ x. ground arith)
    ∙ ap (Option.map (updated (has_id m.id) (λ _. asking db.next_id d.change_ref m))) h
    ∙ (let t : has_id m.id m ≡ true = ground arith in rw t refl)

after_qa-delivery :
    (digest : Json → String) (now id : ℕ) (e : Fields) (db : Db) (m : Mission) (d : Delivery)
    → delivery_row id db ≡ some d
    → delivery_row id (after_qa digest now e m d db) ≡ some (passed_qa db.next_id e d)
unfolding after_qa delivery_row create_request put_mission put_delivery
after_qa-delivery digest now id e db m d h =
    let own = delivery_row_mission id db h in
    find-update_where (delivers id) (delivers d.mission_id) (λ _. passed_qa db.next_id e d)
      db.deliveries (λ x. ground arith)
    ∙ ap (Option.map (updated (delivers d.mission_id) (λ _. passed_qa db.next_id e d))) h
    ∙ (let t : delivers d.mission_id d ≡ true = ground arith in rw t refl)

-- The decision of a person on a pending request.
decide-approved :
    (now k : ℕ) (r : ApprovalRequest) (db : Db)
    → request_row k db ≡ some r
    → r.state ≡ pending
    → (decide now k approved db).1 ≡ record db {
      requests = update_where (has_request_id k) (λ _. decided now approved r) db.requests;
    }
unfolding decide
decide-approved now k r db h s = rw (h, decide) (rw s refl)

-- A change of a running mission is in QA, nothing of it has been published, and the id of its
-- request is fresh. After it passes QA and a person approves it, its publication, with a branch in
-- the generated namespace and Git SHAs for commit and tree, succeeds until the approval expires 24
-- hours after QA; then the delivery of the mission has this change and the branch, commit, tree and
-- moment of the publication.
pub approved-publication :
    (digest : Json → String) (tested_at decided_at now id : ℕ) (e : Fields)
    (branch commit tree : String) (db : Db) (m : Mission) (d : Delivery)
    → IsAsked id db m d
    → now < tested_at + 86400
    → is_candidate_branch branch ≡ true
    → is_git_sha commit ≡ true
    → is_git_sha tree ≡ true
    → let after =
        record_publication now id d.change_ref branch commit tree
          (decide decided_at db.next_id approved
            (record_qa_result digest tested_at id d.change_ref "PASSED" e db).1).1 in
      (is_ok after.0 ≡ true) × IsPublishedAs now id d.change_ref branch commit tree after.1
unfolding request_from delivery_request delivery_plan plans_change get_field decided after_qa
    mission_row delivery_row
approved-publication digest tested_at decided_at now id e branch commit tree db m d a lt hb hc ht =
    let db1 : Db = after_qa digest tested_at e m d db in
    let asked = after_qa-request digest tested_at e db m d a.fresh in
    let own = mission_row_id id db a.mission in
    let decided_row = decide_lem decided_at db.next_id approved _ db1 asked in
    rw (record_qa_result-after digest tested_at id e db m d a) (
      IsCleared-publication id db.next_id d.change_ref (tested_at + 86400) now branch commit tree
        (decide decided_at db.next_id approved db1).1 hb hc ht lt
        (record {
          mission = asking db.next_id d.change_ref m;
          mission_there =
              rw (decide-approved decided_at db.next_id _ db1 asked refl)
                (after_qa-mission digest tested_at id e db m d a.mission);
          delivery = passed_qa db.next_id e d;
          row =
              rw (decide-approved decided_at db.next_id _ db1 asked refl)
                (after_qa-delivery digest tested_at id e db m d a.row);
          change = refl;
          stage = refl;
          tested = refl;
          referred = refl;
          branch = a.branch;
          commit = a.commit;
          tree = a.tree;
          request =
              decided decided_at approved
                (request_from digest db.next_id (delivery_request tested_at m d e));
          request_there = decided_row.1 decided_row.0;
          owner = own;
          target = refl;
          plan = str_eq_refl d.change_ref;
          expiry = refl;
          state = refl;
        }))
