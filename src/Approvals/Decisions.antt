-- ===== src/Approvals/Decisions.antt =====
-- approvals/service.py: the decisions on requests.
use ai_hq.Prelude.{
  ℕ, String, true, false, some, List, [], ◌∷◌, ◌≡◌, ◌≢◌, ◌↔◌, refl, sym, ap, ◌∙◌, inl, inr, arith,
  Bool-cases, Option-cases, some_cancel,
}
use mathlib.Core.Option
use ai_hq.Prelude.Result.{is_ok}
use ai_hq.Prelude.Rows.Finds.{find-append, updated}
use ai_hq.Json.{Json}
use ai_hq.Tables.{Db}
use ai_hq.Tables.Approvals.{ApprovalRequest, ApprovalState, same_approval_state, pending}
use ai_hq.Approvals.Written.{
  request_row_id, request_row-decided, decide_lem, decide_absent, decide_refused, decide_others,
}
use ai_hq.Approvals.Requests.{
  NewRequest, create_request, has_request_id, request_row, decided, decide,
}

-- A call that writes requests.
pub data RequestCall : Type 0 where
  create : NewRequest → RequestCall
  decision : ℕ → ℕ → ApprovalState → RequestCall

unfoldable pub request_call : (Json → String) → RequestCall → Db → Db
request_call digest (create new) db = (create_request digest new db).1
request_call digest (decision now id state) db = (decide now id state db).1

unfoldable pub request_calls : (Json → String) → List RequestCall → Db → Db
request_calls digest [] db = db
request_calls digest (c ∷ cs) db = request_calls digest cs (request_call digest c db)

-- Deciding a request that is not pending leaves it as it is, whatever request is decided.
decide_keeps :
    (now id k : ℕ) (state : ApprovalState) (r : ApprovalRequest) (db : Db)
    → r.state ≢ pending
    → request_row id db ≡ some r
    → request_row id (decide now k state db).1 ≡ some r
unfolding decide
decide_keeps now id k state r db n h = elim (Bool-cases (same_approval_state state pending)) [
  | inl t ↦ rw (t, decide) h
  | inr t ↦ elim (Option-cases (request_row k db)) [
    | inl m ↦ rw (t, decide) (rw m h)
    | inr (x, row) ↦ elim (Bool-cases (same_approval_state x.state pending)) [
      | inr u ↦ rw (t, decide) (rw row (rw u h))
      | inl u ↦
          rw (t, decide)
            (rw row (
              rw u (
                request_row-decided id k (decided now state x) db (request_row_id k db row)
                ∙ ap (Option.map (updated (has_request_id k) (λ _. decided now state x))) h
                ∙ other x row u)))
    ]
  ]
]
  where
    other :
        (x : ApprovalRequest)
        → request_row k db ≡ some x
        → same_approval_state x.state pending ≡ true
        → some (updated (has_request_id k) (λ _. decided now state x) r) ≡ some r
    other x row u = elim (Bool-cases (has_request_id k r)) [
      | inr v ↦ rw v refl
      | inl v ↦
          let i = request_row_id id db h in
          let e : k ≡ id = ground (arith, v, i) in
          let same : x ≡ r = some_cancel (sym row ∙ ap (λ j. request_row j db) e ∙ h) in
          absurd (n (sym (ap (λ (y : ApprovalRequest). y.state) same) ∙ ground (arith, u)))
    ]

-- A request that has been decided keeps its decision, its moment and all else, under every
-- sequence of calls that create and decide requests.
pub decision_final :
    (digest : Json → String) (id : ℕ) (r : ApprovalRequest) (cs : List RequestCall) (db : Db)
    → r.state ≢ pending
    → request_row id db ≡ some r
    → request_row id (request_calls digest cs db) ≡ some r
unfolding request_calls
decision_final digest id r [] db n h = h
decision_final digest id r (c ∷ cs) db n h =
    decision_final digest id r cs (request_call digest c db) n (step c)
  where
    step : (c : RequestCall) → request_row id (request_call digest c db) ≡ some r
    step (create new) =
        unfold request_call create_request request_row in
        find-append (has_request_id id) db.requests _ h
    step (decision now k state) = unfold request_call in decide_keeps now id k state r db n h

-- A request that waits for its decision.
pub record IsWaiting (id : ℕ) (db : Db) : Type 0 where
  pub request : ApprovalRequest
  pub row : request_row id db ≡ some request
  pub state : request.state ≡ pending

-- The request is there before and after; it has the decision and its moment and is the same in all
-- other columns.
pub record IsDecided (now id : ℕ) (state : ApprovalState) (db after : Db) : Type 0 where
  pub before : ApprovalRequest
  pub row_before : request_row id db ≡ some before
  pub row_after :
      request_row id after ≡ some (record before { state = state; decided_at = some now })

decide-IsDecided :
    (now id : ℕ) (state : ApprovalState) (db : Db)
    → is_ok (decide now id state db).0 ≡ true
    → IsDecided now id state db (decide now id state db).1
unfolding decided
decide-IsDecided now id state db h = elim (Option-cases (request_row id db)) [
  | inl n ↦ let f = (decide_absent now id state db n).0 in cc (f, h)
  | inr (r, row) ↦ record {
    before = r;
    row_before = row;
    row_after = (decide_lem now id state r db row).1 h;
  }
]

decide_succeeds :
    (now id : ℕ) (state : ApprovalState) (db : Db)
    → (is_ok (decide now id state db).0 ≡ true) ↔ ((state ≢ pending) × IsWaiting id db)
decide_succeeds now id state db = (
  λ h. elim (Option-cases (request_row id db)) [
    | inl n ↦ let f = (decide_absent now id state db n).0 in cc (f, h)
    | inr (r, row) ↦
        let e = sym (decide_lem now id state r db row).0 ∙ h in
        (ground (arith, e), record { request = r; row = row; state = ground (arith, e) })
  ],
  λ (n, w).
      let e = (decide_lem now id state w.request db w.row).0 in
      let p = w.state in ground (arith, e, n, p),
)

-- A decision succeeds exactly if it is not `pending` and the request is there and pending. Then the
-- request has the decision and its moment and keeps its other columns, and every other request
-- keeps its row; otherwise the tables are unchanged.
pub decide_exact :
    (now id : ℕ) (state : ApprovalState) (db : Db)
    → ((is_ok (decide now id state db).0 ≡ true) ↔ ((state ≢ pending) × IsWaiting id db))
      × (is_ok (decide now id state db).0 ≡ true
          → IsDecided now id state db (decide now id state db).1)
      × ((k : ℕ) → k ≢ id → request_row k (decide now id state db).1 ≡ request_row k db)
      × (is_ok (decide now id state db).0 ≡ false → (decide now id state db).1 ≡ db)
decide_exact now id state db = (
  decide_succeeds now id state db,
  decide-IsDecided now id state db,
  λ k n. decide_others now id k state db n,
  decide_refused now id state db,
)
