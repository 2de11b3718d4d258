-- ===== src/Delivery/Steps.antt =====
-- delivery/service.py: the steps that a change takes, and that every method takes one or none.
use ai_hq.Prelude.{
  ℕ, String, true, false, Option, none, some, [], ◌∷◌, ◌++◌, ◌≡◌, refl, inl, inr, arith, Bool-cases,
  Option-cases, ◌==◌, ◌⊎◌,
}
use ai_hq.Prelude.Rows.{find, update_where}
use ai_hq.Prelude.Rows.Finds.{find-update_where, find-append, find-append_none}
use ai_hq.Json.{Fields}
use ai_hq.Tables.{Db}
use ai_hq.Tables.Approvals.{ApprovalRequest, denied, cancelled}
use ai_hq.Tables.Deliveries.{Delivery, DeliveryStage, passed, failed, developer, qa}
use ai_hq.Approvals.Requests.{request_row}
use ai_hq.Delivery.Identity.{is_candidate_branch, is_git_sha, release_id_valid, is_set}
use ai_hq.Delivery.Proposals.{delivers, delivery_row}
use ai_hq.Delivery.Releases.{is_published}
use ai_hq.Delivery.Inversions.{IsConsent, IsWaiting, delivery_row_mission}

-- A change that may be released now: it waits with its QA passed, and its approval has been given
-- and has not expired.
pub record IsReleasable (now : ℕ) (db : Db) (d : Delivery) : Type 0 where
  pub reference : ℕ
  pub request : ApprovalRequest
  pub waiting : IsWaiting d.change_ref d reference
  pub row : request_row reference db ≡ some request
  pub consent : IsConsent now d.mission_id d.change_ref request

pub record IsUnpublished (d : Delivery) : Type 0 where
  pub branch : d.published_branch ≡ none
  pub commit : d.published_commit ≡ none
  pub tree : d.published_tree ≡ none

pub record IsUndeployed (d : Delivery) : Type 0 where
  pub release : d.deployment_release_id ≡ none
  pub prior : d.deployment_prior_release_id ≡ none

-- A change that nobody has proposed before.
pub record IsProposal (d : Delivery) : Type 0 where
  pub stage : d.stage ≡ qa
  pub untested : d.qa_result ≡ none
  pub unasked : d.approval_reference ≡ none
  pub unpublished : IsUnpublished d
  pub undeployed : IsUndeployed d
  pub unrestored : d.rollback_release_id ≡ none

pub data Handoff (db : Db) (d : Delivery) : Delivery → Type 0 where
  fail_qa :
      (evidence : Fields)
      → d.stage ≡ qa
      → Handoff db d (record d {
        qa_result = some failed;
        qa_evidence = some evidence;
        stage = developer;
        approval_reference = none;
      })
  pass_qa :
      (evidence : Fields)
      → d.stage ≡ qa
      → Handoff db d (record d {
        qa_result = some passed;
        qa_evidence = some evidence;
        stage = DeliveryStage.waiting_approval;
        approval_reference = some db.next_id;
      })
  publish :
      (now : ℕ) (branch commit tree : String)
      → is_candidate_branch branch ≡ true
      → is_git_sha commit ≡ true
      → is_git_sha tree ≡ true
      → IsReleasable now db d
      → IsUnpublished d
      → Handoff db d (record d {
        published_branch = some branch;
        published_commit = some commit;
        published_tree = some tree;
        published_at = some now;
      })
  deploy :
      (now : ℕ) (release_id : String) (prior : Option String)
      → release_id_valid release_id ≡ true
      → IsReleasable now db d
      → is_published d ≡ true
      → IsUndeployed d
      → Handoff db d (record d {
        deployment_release_id = some release_id;
        deployment_prior_release_id = prior;
        deployed_at = some now;
      })
  restore :
      (now : ℕ) (release_id : String)
      → IsReleasable now db d
      → is_published d ≡ true
      → is_set d.deployment_release_id ≡ true
      → d.deployment_prior_release_id ≡ some release_id
      → d.rollback_release_id ≡ none
      → Handoff db d (record d { rollback_release_id = some release_id; rolled_back_at = some now })
  send_back :
      (reference : ℕ) (request : ApprovalRequest)
      → d.stage ≡ DeliveryStage.waiting_approval
      → d.approval_reference ≡ some reference
      → request_row reference db ≡ some request
      → (request.state ≡ denied) ⊎ (request.state ≡ cancelled)
      → Handoff db d (record d { stage = developer; approval_reference = none })

-- What a method does to the row of a mission.
pub data Advance (db : Db) : Option Delivery → Option Delivery → Type 0 where
  stay : (o : Option Delivery) → Advance db o o
  propose : (d : Delivery) → IsProposal d → Advance db none (some d)
  advance : (d d' : Delivery) → Handoff db d d' → Advance db (some d) (some d')

Handoff-mission : {db : Db} {d d' : Delivery} → Handoff db d d' → d'.mission_id ≡ d.mission_id
Handoff-mission (fail_qa e s) = refl
Handoff-mission (pass_qa e s) = refl
Handoff-mission (publish now b c t hb hc ht r u) = refl
Handoff-mission (deploy now r p hr rel pub' u) = refl
Handoff-mission (restore now r rel pub' dep pr u) = refl
Handoff-mission (send_back k r s ref row h) = refl

-- The flush of a delivery that has taken a step.
pub put-Advance :
    (k id : ℕ) (db : Db) (d d' : Delivery)
    → delivery_row id db ≡ some d
    → Handoff db d d'
    → Advance db
        (delivery_row k db)
        (find (delivers k) (update_where (delivers d'.mission_id) (λ _. d') db.deliveries))
unfolding delivery_row
put-Advance k id db d d' row step =
    let own = delivery_row_mission id db row in
    let same = Handoff-mission step in
    rw
      (find-update_where (delivers k) (delivers d'.mission_id) (λ _. d') db.deliveries
        (λ x. ground arith))
      (elim (Bool-cases (id == k)) [
        | inl t ↦
            let at_k : id ≡ k = ground arith in
            let hit : delivers d'.mission_id d ≡ true = ground arith in
            rw (← at_k, row) (rw hit (advance d d' step))
        | inr t ↦ elim (Option-cases (delivery_row k db)) [
          | inl n ↦ rw n (stay none)
          | inr (x, h) ↦
              let away = delivery_row_mission k db h in
              let miss : delivers d'.mission_id x ≡ false = ground arith in
              rw h (rw miss (stay (some x)))
        ]
      ])

-- The insertion of a delivery for a mission that has none.
pub append-Advance :
    (k : ℕ) (db : Db) (d : Delivery)
    → delivery_row d.mission_id db ≡ none
    → IsProposal d
    → Advance db (delivery_row k db) (find (delivers k) (db.deliveries ++ d ∷ []))
unfolding delivery_row
append-Advance k db d row p = elim (Option-cases (delivery_row k db)) [
  | inr (x, h) ↦ rw (find-append (delivers k) db.deliveries (d ∷ []) h, h) (stay (some x))
  | inl n ↦
      rw (find-append_none (delivers k) db.deliveries (d ∷ []) n, n)
        (elim (Bool-cases (delivers k d)) [ inl t ↦ rw t (propose d p) | inr t ↦ rw t (stay none) ])
]
