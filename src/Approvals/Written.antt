-- ===== src/Approvals/Written.antt =====
-- approvals/service.py: what a decision writes to the table of requests.
use ai_hq.Prelude.{
  ℕ, true, false, ◌&&◌, not, some, none, ◌≡◌, ◌≢◌, refl, ap, ◌∙◌, inl, inr, arith, Bool-cases,
  Option-cases,
}
use mathlib.Core.Option
use ai_hq.Prelude.Result.{is_ok}
use ai_hq.Prelude.Rows.{update_where}
use ai_hq.Prelude.Rows.Finds.{find-update_where, find_test, updated}
use ai_hq.Tables.{Db}
use ai_hq.Tables.Approvals.{ApprovalRequest, ApprovalState, same_approval_state, pending}
use ai_hq.Approvals.Requests.{has_request_id, request_row, decided, decide}

pub request_row_id :
    (id : ℕ) (db : Db) {r : ApprovalRequest} → request_row id db ≡ some r → r.id ≡ id
unfolding request_row
request_row_id id db {r} h =
    let t = find_test (has_request_id id) db.requests h in ground (arith, t)

-- The row after the update of a decision.
pub request_row-decided :
    (id k : ℕ) (changed : ApprovalRequest) (db : Db)
    → changed.id ≡ k
    → request_row id
        (record db { requests = update_where (has_request_id k) (λ _. changed) db.requests })
      ≡ Option.map (updated (has_request_id k) (λ _. changed)) (request_row id db)
unfolding request_row
request_row-decided id k changed db e =
    find-update_where (has_request_id id) (has_request_id k) (λ _. changed) db.requests
      (λ x. ground arith)

-- A decision on a request that is there.
pub decide_lem :
    (now id : ℕ) (state : ApprovalState) (r : ApprovalRequest) (db : Db)
    → request_row id db ≡ some r
    → (is_ok (decide now id state db).0
        ≡ (not (same_approval_state state pending) && same_approval_state r.state pending))
      × (is_ok (decide now id state db).0 ≡ true
          → request_row id (decide now id state db).1 ≡ some (decided now state r))
      × (is_ok (decide now id state db).0 ≡ false → (decide now id state db).1 ≡ db)
unfolding decide
decide_lem now id state r db h = elim (Bool-cases (same_approval_state state pending)) [
  | inl t ↦ rw (t, decide) (refl, λ q. cc, λ q. refl)
  | inr t ↦ elim (Bool-cases (same_approval_state r.state pending)) [
    | inr u ↦ rw (t, decide) (rw h (rw u (refl, λ q. cc, λ q. refl)))
    | inl u ↦
        rw (t, decide)
          (rw h (
            rw u (
              refl,
              λ q.
                  request_row-decided id id (decided now state r) db (request_row_id id db h)
                  ∙ ap (Option.map (updated (has_request_id id) (λ _. decided now state r))) h
                  ∙ own,
              λ q. cc,
            )))
  ]
]
  where
    own :
        some (updated (has_request_id id) (λ _. decided now state r) r) ≡ some (decided now state r)
    own = let i = request_row_id id db h in ground (arith, i)

pub decide_absent :
    (now id : ℕ) (state : ApprovalState) (db : Db)
    → request_row id db ≡ none
    → (is_ok (decide now id state db).0 ≡ false) × ((decide now id state db).1 ≡ db)
unfolding decide
decide_absent now id state db n = elim (Bool-cases (same_approval_state state pending)) [
  | inl t ↦ rw (t, decide) (refl, refl)
  | inr t ↦ rw (t, decide) (rw n (refl, refl))
]

pub decide_refused :
    (now id : ℕ) (state : ApprovalState) (db : Db)
    → is_ok (decide now id state db).0 ≡ false
    → (decide now id state db).1 ≡ db
decide_refused now id state db h = elim (Option-cases (request_row id db)) [
  | inl n ↦ (decide_absent now id state db n).1
  | inr (r, row) ↦ (decide_lem now id state r db row).2 h
]

-- The update of one request passes over the others.
updated_other :
    (k id : ℕ) (changed : ApprovalRequest) (db : Db)
    → k ≢ id
    → Option.map (updated (has_request_id id) (λ _. changed)) (request_row k db) ≡ request_row k db
updated_other k id changed db n = elim (Option-cases (request_row k db)) [
  | inl m ↦ rw m refl
  | inr (y, row) ↦
      let i = request_row_id k db row in
      let v : has_request_id id y ≡ false = ground (arith, i, n) in rw row (rw v refl)
]

pub decide_others :
    (now id k : ℕ) (state : ApprovalState) (db : Db)
    → k ≢ id
    → request_row k (decide now id state db).1 ≡ request_row k db
unfolding decide
decide_others now id k state db n = elim (Bool-cases (same_approval_state state pending)) [
  | inl t ↦ rw (t, decide) refl
  | inr t ↦ elim (Option-cases (request_row id db)) [
    | inl m ↦ rw (t, decide) (rw m refl)
    | inr (x, row) ↦ elim (Bool-cases (same_approval_state x.state pending)) [
      | inr u ↦ rw (t, decide) (rw row (rw u refl))
      | inl u ↦
          rw (t, decide)
            (rw row (
              rw u (
                request_row-decided k id (decided now state x) db (request_row_id id db row)
                ∙ updated_other k id (decided now state x) db n)))
    ]
  ]
]
