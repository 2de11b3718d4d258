-- ===== src/Delivery/Handing.antt =====
-- delivery/service.py: proposing a change, testing it and deciding on it take one step of the
-- change, or none.
use ai_hq.Prelude.{
  ℕ, String, true, none, some, List, ◌≡◌, refl, ◌∙◌, inl, inr, arith, Bool-cases, Option-cases, ◌⊎◌,
  str_eq,
}
use ai_hq.Prelude.Result.{Result-cases, ok}
use ai_hq.Json.{Json, Fields}
use ai_hq.Tables.{Db}
use ai_hq.Tables.Missions.{Mission}
use ai_hq.Tables.Approvals.{ApprovalRequest, ApprovalState, denied, cancelled, approved, pending}
use ai_hq.Tables.Deliveries.{Delivery, DeliveryStage, QaResult, passed, failed, qa, same_stage}
use ai_hq.Approvals.Requests.{request_row}
use ai_hq.Missions.Lifecycle.{mission_row}
use ai_hq.Delivery.Proposals.{
  delivery_row, put_delivery, handoff, proposal_check, submit_developer_proposal, submitted,
  qa_check, qa_recorded, record_qa_result, qa_result_of, tested,
}
use ai_hq.Delivery.Decisions.{decision_check, returned, decision_applied, apply_human_decision}
use ai_hq.Delivery.Inversions.{handoff-eq-ok}
use ai_hq.Delivery.Steps.{Advance, stay, fail_qa, pass_qa, send_back, put-Advance, append-Advance}
use ai_hq.Delivery.Methods.{is_none-eq}

proposal_check-new :
    (id : ℕ) (change_ref summary : String) (db : Db) (m : Mission)
    → proposal_check id change_ref summary db ≡ ok m
    → delivery_row id db ≡ none
unfolding proposal_check
proposal_check-new id change_ref summary db m h = elim (Option-cases (mission_row id db)) [
  | inl n ↦ ground (arith, rw n at h)
  | inr (x, e) ↦ is_none-eq (delivery_row id db) (let k = rw e at h in ground arith)
]

pub submit_developer_proposal-Advance :
    (k id : ℕ) (change_ref summary : String) (files : List Json) (evidence : Fields) (db : Db)
    → Advance db
        (delivery_row k db)
        (delivery_row k (submit_developer_proposal id change_ref summary files evidence db).1)
unfolding submit_developer_proposal submitted put_delivery delivery_row
submit_developer_proposal-Advance k id change_ref summary files evidence db =
    elim (Result-cases (proposal_check id change_ref summary db)) [
      | inl (x, e) ↦ rw e (stay (delivery_row k db))
      | inr (m, e) ↦ rw e (
          append-Advance k db _ (proposal_check-new id change_ref summary db m e) (record {
            stage = refl;
            untested = refl;
            unasked = refl;
            unpublished = record { branch = refl; commit = refl; tree = refl };
            undeployed = record { release = refl; prior = refl };
            unrestored = refl;
          }))
    ]

-- What the checks of `record_qa_result` have found.
qa_check-eq-ok :
    (id : ℕ) (change_ref result : String) (db : Db) (outcome : QaResult) (m : Mission)
    (d : Delivery)
    → qa_check id change_ref result db ≡ ok (outcome, m, d)
    → (mission_row id db ≡ some m) × (delivery_row id db ≡ some d) × (d.stage ≡ qa)
unfolding qa_check
qa_check-eq-ok id change_ref result db outcome m d h = elim (Option-cases (qa_result_of result)) [
  | inl n ↦ cc (rw n at h)
  | inr (o, eo) ↦ elim (Result-cases (handoff id db)) [
    | inl (x, e) ↦ cc (rw (eo, e) at h)
    | inr ((m', d'), e) ↦
        let (hm, hd) = handoff-eq-ok id db e in
        elim (Bool-cases (same_stage d'.stage qa)) [
          | inr t ↦ cc (rw (eo, e, t) at h)
          | inl t ↦ elim (Bool-cases (str_eq d'.change_ref change_ref)) [
            | inr u ↦ cc (rw (eo, e, t, u) at h)
            | inl u ↦ last o m' d' t hm hd (rw (eo, e, t, u) at h)
          ]
        ]
  ]
]
  where
    last :
        (o : QaResult) (m' : Mission) (d' : Delivery)
        → same_stage d'.stage qa ≡ true
        → mission_row id db ≡ some m'
        → delivery_row id db ≡ some d'
        → tested o m' d' ≡ ok (outcome, m, d)
        → (mission_row id db ≡ some m) × (delivery_row id db ≡ some d) × (d.stage ≡ qa)
    last failed m' d' t hm hd h = (cc, cc, ground arith)
    last passed m' d' t hm hd h = (ground arith, ground arith, ground arith)

pub record_qa_result-Advance :
    (digest : Json → String) (k now id : ℕ) (change_ref result : String) (evidence : Fields)
    (db : Db)
    → Advance db
        (delivery_row k db)
        (delivery_row k (record_qa_result digest now id change_ref result evidence db).1)
unfolding record_qa_result qa_recorded put_delivery delivery_row
record_qa_result-Advance digest k now id change_ref result evidence db =
    elim (Result-cases (qa_check id change_ref result db)) [
      | inl (x, e) ↦ rw e (stay (delivery_row k db))
      | inr ((failed, m, d), e) ↦
          let (hm, hd, s) = qa_check-eq-ok id change_ref result db failed m d e in
          rw e (put-Advance k id db d _ hd (fail_qa evidence s))
      | inr ((passed, m, d), e) ↦
          let (hm, hd, s) = qa_check-eq-ok id change_ref result db passed m d e in
          rw e (put-Advance k id db d _ hd (pass_qa evidence s))
    ]

pub record IsDecided (id reference : ℕ) (db : Db) (state : ApprovalState) (m : Mission)
    (d : Delivery) : Type 0 where
  pub mission : mission_row id db ≡ some m
  pub row : delivery_row id db ≡ some d
  pub stage : d.stage ≡ DeliveryStage.waiting_approval
  pub referred : d.approval_reference ≡ some reference
  pub request : ApprovalRequest
  pub asked : request_row reference db ≡ some request
  pub state_of : request.state ≡ state

pub decision_check-eq-ok :
    (now id reference : ℕ) (change_ref : String) (db : Db) (state : ApprovalState) (m : Mission)
    (d : Delivery)
    → decision_check now id reference change_ref db ≡ ok (state, m, d)
    → IsDecided id reference db state m d
unfolding decision_check
decision_check-eq-ok now id reference change_ref db state m d h =
    elim (Result-cases (handoff id db)) [
      | inl (x, e) ↦ cc (rw e at h)
      | inr ((m', d'), e) ↦
          let (hm, hd) = handoff-eq-ok id db e in
          elim (Option-cases (request_row reference db)) [
            | inl n ↦ ground (arith, rw (e, n) at h)
            | inr (r, er) ↦
                let k = rw (e, er) at h in
                record {
                  mission = ground arith;
                  row = ground arith;
                  stage = ground arith;
                  referred = ground arith;
                  request = r;
                  asked = er;
                  state_of = ground arith;
                }
          ]
    ]

returned-Advance :
    (k id reference : ℕ) (db : Db) (state : ApprovalState) (m : Mission) (d : Delivery)
    → IsDecided id reference db state m d
    → (state ≡ denied) ⊎ (state ≡ cancelled)
    → Advance db (delivery_row k db) (delivery_row k (returned m d db).1)
unfolding returned put_delivery delivery_row
returned-Advance k id reference db state m d x s = put-Advance k id db d _ x.row (
    send_back reference x.request x.stage x.referred x.asked
      (elim s [ inl e ↦ inl (x.state_of ∙ e) | inr e ↦ inr (x.state_of ∙ e) ]))

pub apply_human_decision-Advance :
    (k now id reference : ℕ) (change_ref : String) (db : Db)
    → Advance db
        (delivery_row k db)
        (delivery_row k (apply_human_decision now id reference change_ref db).1)
unfolding apply_human_decision decision_applied
apply_human_decision-Advance k now id reference change_ref db =
    elim (Result-cases (decision_check now id reference change_ref db)) [
      | inl (x, e) ↦ rw e (stay (delivery_row k db))
      | inr ((approved, m, d), e) ↦ rw e (stay (delivery_row k db))
      | inr ((pending, m, d), e) ↦ rw e (stay (delivery_row k db))
      | inr ((denied, m, d), e) ↦ rw e (
          (returned-Advance k id reference db denied m d
            (decision_check-eq-ok now id reference change_ref db denied m d e) (inl refl)))
      | inr ((cancelled, m, d), e) ↦ rw e (
          (returned-Advance k id reference db cancelled m d
            (decision_check-eq-ok now id reference change_ref db cancelled m d e) (inr refl)))
    ]
