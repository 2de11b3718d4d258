-- ===== src/Delivery/Calls.antt =====
-- delivery/service.py and approvals/service.py: the calls that write deliveries and requests.
use ai_hq.Prelude.{
  arith, subst, some_cancel, ℕ, String, Option, some, List, [], ◌∷◌, ◌≡◌, refl, inl, inr,
  Bool-cases, Option-cases,
}
use ai_hq.Json.{Json, Fields}
use ai_hq.Tables.{Db}
use ai_hq.Tables.Approvals.{ApprovalState, same_approval_state, pending}
use ai_hq.Tables.Deliveries.{Delivery, developer}
use ai_hq.Approvals.Requests.{create_request, request_row, decide}
use ai_hq.Approvals.Decisions.{RequestCall, create, decision, request_call}
use ai_hq.Delivery.Proposals.{delivery_row, submit_developer_proposal, record_qa_result}
use ai_hq.Delivery.Releases.{record_publication, record_deployment, record_rollback}
use ai_hq.Delivery.Decisions.{apply_human_decision}
use ai_hq.Delivery.Steps.{
  Handoff, fail_qa, pass_qa, publish, deploy, restore, send_back, Advance, stay, propose, advance,
}
use ai_hq.Delivery.Methods.{
  record_publication-Advance, record_deployment-Advance, record_rollback-Advance,
}
use ai_hq.Delivery.Handing.{
  submit_developer_proposal-Advance, record_qa_result-Advance, apply_human_decision-Advance,
}

pub data DeliveryCall : Type 0 where
  submit : ℕ → String → String → List Json → Fields → DeliveryCall
  test : ℕ → ℕ → String → String → Fields → DeliveryCall
  record_published : ℕ → ℕ → String → String → String → String → DeliveryCall
  record_deployed : ℕ → ℕ → String → String → Option String → DeliveryCall
  record_restored : ℕ → ℕ → String → String → DeliveryCall
  apply_decision : ℕ → ℕ → ℕ → String → DeliveryCall
  request : RequestCall → DeliveryCall

decide-deliveries :
    (now id : ℕ) (state : ApprovalState) (db : Db)
    → (decide now id state db).1.deliveries ≡ db.deliveries
unfolding decide
decide-deliveries now id state db = elim (Bool-cases (same_approval_state state pending)) [
  | inl t ↦ rw (t, decide) refl
  | inr t ↦ elim (Option-cases (request_row id db)) [
    | inl n ↦ rw (t, decide) (rw n refl)
    | inr (r, row) ↦ elim (Bool-cases (same_approval_state r.state pending)) [
      | inl u ↦ rw (t, decide) (rw row (rw u refl))
      | inr u ↦ rw (t, decide) (rw row (rw u refl))
    ]
  ]
]

module _ (digest : Json → String) where
  unfoldable pub delivery_call : DeliveryCall → Db → Db
  delivery_call (submit id ref summary files e) db =
      (submit_developer_proposal id ref summary files e db).1
  delivery_call (test now id ref result e) db = (record_qa_result digest now id ref result e db).1
  delivery_call (record_published now id ref b c t) db = (record_publication now id ref b c t db).1
  delivery_call (record_deployed now id ref r p) db = (record_deployment now id ref r p db).1
  delivery_call (record_restored now id ref r) db = (record_rollback now id ref r db).1
  delivery_call (apply_decision now id k ref) db = (apply_human_decision now id k ref db).1
  delivery_call (request c) db = request_call digest c db

  unfoldable pub delivery_calls : List DeliveryCall → Db → Db
  delivery_calls [] db = db
  delivery_calls (c ∷ cs) db = delivery_calls cs (delivery_call c db)

  request_call-deliveries :
      (c : RequestCall) (db : Db) → (request_call digest c db).deliveries ≡ db.deliveries
  unfolding request_call create_request
  request_call-deliveries (create new) db = refl
  request_call-deliveries (decision now id state) db = decide-deliveries now id state db

  pub delivery_call-Advance :
      (k : ℕ) (c : DeliveryCall) (db : Db)
      → Advance db (delivery_row k db) (delivery_row k (delivery_call c db))
  unfolding delivery_call
  delivery_call-Advance k (submit id ref summary files e) db =
      submit_developer_proposal-Advance k id ref summary files e db
  delivery_call-Advance k (test now id ref result e) db =
      record_qa_result-Advance digest k now id ref result e db
  delivery_call-Advance k (record_published now id ref b c t) db =
      record_publication-Advance k now id ref b c t db
  delivery_call-Advance k (record_deployed now id ref r p) db =
      record_deployment-Advance k now id ref r p db
  delivery_call-Advance k (record_restored now id ref r) db =
      record_rollback-Advance k now id ref r db
  delivery_call-Advance k (apply_decision now id j ref) db =
      apply_human_decision-Advance k now id j ref db
  delivery_call-Advance k (request c) db =
      unfold delivery_row in rw (request_call-deliveries c db) (stay (delivery_row k db))

  -- A change that went back to the developer keeps every column, under every sequence of calls.
  pub returned_forever :
      (k : ℕ) (d : Delivery) (cs : List DeliveryCall) (db : Db)
      → delivery_row k db ≡ some d
      → d.stage ≡ developer
      → delivery_row k (delivery_calls cs db) ≡ some d
  unfolding delivery_calls
  returned_forever k d [] db row s = row
  returned_forever k d (c ∷ cs) db row s =
      returned_forever k d cs (delivery_call c db)
        (still (rw row at (delivery_call-Advance k c db))) s
    where
      no_step : {d' : Delivery} → Handoff db d d' → ⊥
      no_step (fail_qa e h) = ground (arith, s)
      no_step (pass_qa e h) = ground (arith, s)
      no_step (publish now b c' t hb hc ht rel u) = let w = rel.waiting.stage in ground (arith, s)
      no_step (deploy now r p hr rel pub' u) = let w = rel.waiting.stage in ground (arith, s)
      no_step (restore now r rel pub' dep pr u) = let w = rel.waiting.stage in ground (arith, s)
      no_step (send_back j r h ref row' e) = ground (arith, s)

      same : {o o' : Option Delivery} → Advance db o o' → o ≡ some d → o' ≡ some d
      same (stay o) h = h
      same (propose x p) h = cc
      same (advance x x' step) h =
          absurd (no_step (subst (λ y. Handoff db y x') (some_cancel h) step))

      still : {o' : Option Delivery} → Advance db (some d) o' → o' ≡ some d
      still a = same a refl
