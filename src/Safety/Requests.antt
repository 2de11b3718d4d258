-- ===== src/Safety/Requests.antt =====
-- safety/service.py: when the safety service asks for approval.
use ai_hq.Prelude.{
  ℕ, suc, ◌+◌, ◌≤◌, ◌<◌, String, true, false, Option, none, some, List, [], ◌∷◌, ◌++◌, ◌≡◌, ◌≢◌,
  refl, ap, subst, ◌∙◌, inl, inr, arith, Bool-cases, Option-cases, some_cancel, Memᴰ, eq_iff,
}
use mathlib.Core.List.Memᴰ
use mathlib.Core.Option
use text.Mathlib.TextPositions.{eq_refl}
use ai_hq.Prelude.Rows.{find, where_rows}
use ai_hq.Prelude.Rows.Finds.{find-append_none}
use ai_hq.Prelude.Rows.Members.{where_rows-append, find-mem, where_rows-mem}
use ai_hq.Tables.{Db}
use ai_hq.Tables.Approvals.{ApprovalRequest, pending}
use ai_hq.Approvals.Requests.{request_from, is_for, is_live, pending_for_fingerprint}
use ai_hq.Tables.Missions.{MissionStatus}
use ai_hq.Safety.Policy.{require_approval}
use ai_hq.Safety.Service.{
  evaluate, decision_of, rule_now, system_state, wants_approval, log_evaluation, SafetyService,
  SafetyResult, ProposedAction, fingerprint_of, ask_approval, log_approval,
}

-- A live request stays the first live one until it expires.
find_live_later :
    (t t' : ℕ) (rs : List ApprovalRequest) (p : ApprovalRequest)
    → find (is_live t) rs ≡ some p
    → t ≤ t'
    → t' < p.expires_at
    → find (is_live t') rs ≡ some p
unfolding find
find_live_later t t' [] p h le live = cc
find_live_later t t' (r ∷ rs) p h le live = elim (Bool-cases (is_live t r)) [
  | inl q ↦
      let e : r ≡ p = some_cancel (rw q at h) in
      let q' : is_live t' r ≡ true = ground (arith, ap (λ (x : ApprovalRequest). x.expires_at) e) in
      rw q' (ap some e)
  | inr q ↦
      let q' : is_live t' r ≡ false = ground (arith, q) in
      rw q' (find_live_later t t' rs p (rw q at h) le live)
]

find_live_none :
    (t t' : ℕ) (rs : List ApprovalRequest)
    → find (is_live t) rs ≡ none
    → t ≤ t'
    → find (is_live t') rs ≡ none
unfolding find
find_live_none t t' [] h le = refl
find_live_none t t' (r ∷ rs) h le = elim (Bool-cases (is_live t r)) [
  | inl q ↦ cc (rw q at h)
  | inr q ↦
      let q' : is_live t' r ≡ false = ground (arith, q) in
      rw q' (find_live_none t t' rs (rw q at h) le)
]

-- A new request is the pending one, where no older one was live.
pending_created :
    (t t' mission_id : ℕ) (fp : String) (db db' : Db) (r : ApprovalRequest)
    → pending_for_fingerprint t mission_id fp db ≡ none
    → db'.requests ≡ db.requests ++ r ∷ []
    → is_for mission_id fp pending r ≡ true
    → t ≤ t'
    → t' < r.expires_at
    → pending_for_fingerprint t' mission_id fp db' ≡ some r
unfolding pending_for_fingerprint
pending_created t t' mission_id fp db db' r h e own le live =
    let q : is_live t' r ≡ true = ground arith in
    rw (e, where_rows-append)
      (find-append_none (is_live t') _ _ (find_live_none t t' _ h le)
        ∙ unfold where_rows find in (rw own (rw q refl)))

module _ (service : SafetyService) (clock : ℕ → ℕ) (a : ProposedAction) (db : Db) where
  -- The request that `ask_approval` creates.
  unfoldable pub new_request : ApprovalRequest
  unfolding request_from
  new_request = request_from service.digest db.next_id (record {
    mission_id = a.mission_id;
    requester_agent = a.agent_key;
    action = a.action;
    target = a.target;
    risk = a.risk;
    action_plan = a.action_plan;
    expires_at = clock 3 + service.approval_lifetime;
  })

  unfoldable pub with_request : Db
  unfolding log_approval new_request
  with_request =
      log_approval service a new_request
        (record db { requests = db.requests ++ new_request ∷ []; next_id = suc db.next_id })

  pub ask_old :
      (p : ApprovalRequest)
      → pending_for_fingerprint (clock 2) a.mission_id (fingerprint_of service a) db ≡ some p
      → ask_approval service clock a db ≡ (p, db)
  unfolding ask_approval
  ask_old p h = rw (h, ask_approval) refl

  pub ask_new :
      pending_for_fingerprint (clock 2) a.mission_id (fingerprint_of service a) db ≡ none
      → ask_approval service clock a db ≡ (new_request, with_request)
  unfolding ask_approval new_request with_request
  ask_new h = rw (h, ask_approval) refl

  own_request : is_for a.mission_id (fingerprint_of service a) pending new_request ≡ true
  unfolding new_request fingerprint_of request_from
  own_request = simp eq_refl (ground arith)

module _ (service : SafetyService) (clock clock' : ℕ → ℕ) (a : ProposedAction) (db : Db) where
  -- Asking again, while the request of the first time is live, gives the same request and writes
  -- nothing.
  pub ask_approval_again :
      clock 2 ≤ clock' 2
      → clock' 2 < (ask_approval service clock a db).0.expires_at
      → ask_approval service clock' a (ask_approval service clock a db).1
        ≡ ask_approval service clock a db
  ask_approval_again le live =
      elim (Option-cases
        (pending_for_fingerprint (clock 2) a.mission_id (fingerprint_of service a) db)) [
          | inr (p, h) ↦ rw (ask_old service clock a db p h) (
              ask_old service clock' a db p (
                still p h (
                  subst (λ (q : ApprovalRequest × Db). clock' 2 < q.0.expires_at)
                    (ask_old service clock a db p h) live)))
          | inl h ↦ rw (ask_new service clock a db h) (
              ask_old service clock' a (with_request service clock a db)
                (new_request service clock a db)
                (pending_created (clock 2) (clock' 2) a.mission_id (fingerprint_of service a) db
                  (with_request service clock a db) (new_request service clock a db) h
                  (unfold with_request log_approval in refl) (own_request service clock a db) le
                  (subst (λ (q : ApprovalRequest × Db). clock' 2 < q.0.expires_at)
                    (ask_new service clock a db h) live)))
        ]
    where
      still :
          (p : ApprovalRequest)
          → pending_for_fingerprint (clock 2) a.mission_id (fingerprint_of service a) db ≡ some p
          → clock' 2 < p.expires_at
          → pending_for_fingerprint (clock' 2) a.mission_id (fingerprint_of service a) db ≡ some p
      still p h live =
          unfold pending_for_fingerprint in find_live_later (clock 2) (clock' 2) _ p h le live

-- A pending request for exactly this action of this mission.
pub record IsPendingFor (service : SafetyService) (a : ProposedAction) (r : ApprovalRequest)
    : Type 0 where
  pub mission : r.mission_id ≡ a.mission_id
  pub action : r.action_fingerprint ≡ fingerprint_of service a
  pub waits : r.state ≡ pending

module _ (service : SafetyService) (clock : ℕ → ℕ) (a : ProposedAction) (db : Db) where
  pending_of_test :
      (r : ApprovalRequest)
      → is_for a.mission_id (fingerprint_of service a) pending r ≡ true
      → IsPendingFor service a r
  pending_of_test r t = ground (arith, t, eq_iff r.action_fingerprint (fingerprint_of service a))

  ask_approval_sound :
      Memᴰ (ask_approval service clock a db).0 (ask_approval service clock a db).1.requests
      × IsPendingFor service a (ask_approval service clock a db).0
  ask_approval_sound =
      elim (Option-cases
        (pending_for_fingerprint (clock 2) a.mission_id (fingerprint_of service a) db)) [
          | inr (p, h) ↦ rw (ask_old service clock a db p h) (found p h)
          | inl h ↦ rw (ask_new service clock a db h) (
            unfold with_request log_approval in Memᴰ.append_right db.requests (Memᴰ.head refl),
            pending_of_test _ (own_request service clock a db),
          )
        ]
    where
      found :
          (p : ApprovalRequest)
          → pending_for_fingerprint (clock 2) a.mission_id (fingerprint_of service a) db ≡ some p
          → Memᴰ p db.requests × IsPendingFor service a p
      found p h =
          let found_at : Memᴰ p
                (where_rows (is_for a.mission_id (fingerprint_of service a) pending) db.requests)
              × (is_live (clock 2) p ≡ true) =
            unfold pending_for_fingerprint in find-mem (is_live (clock 2)) _ p h in
          let m = found_at.0 in
          let (k, t) =
            where_rows-mem (is_for a.mission_id (fingerprint_of service a) pending) db.requests p
              m in
          (k, pending_of_test p t)

-- The two ways that an evaluation ends.
module _ (service : SafetyService) (clock : ℕ → ℕ) (a : ProposedAction) (db : Db) where
  unfoldable pub result_with : MissionStatus → Option ℕ → SafetyResult
  unfolding decision_of fingerprint_of rule_now system_state
  result_with status request_id = record {
    decision = decision_of service clock a db;
    mission_status = status;
    action_fingerprint = fingerprint_of service a;
    approval_request_id = request_id;
    scoped_rule_id = Option.map (λ r. r.id) (rule_now service clock a db);
    simulation_mode = (system_state db).1;
  }

  pub evaluate_settled :
      wants_approval (decision_of service clock a db) ≡ false
      → evaluate service clock a db
        ≡ (result_with MissionStatus.running none, log_evaluation service clock a db)
  unfolding evaluate result_with
  evaluate_settled t = rw (t, evaluate) refl

  pub evaluate_asks :
      wants_approval (decision_of service clock a db) ≡ true
      → evaluate service clock a db ≡ (
        result_with MissionStatus.waiting_approval
            (some (ask_approval service clock a (log_evaluation service clock a db)).0.id),
        (ask_approval service clock a (log_evaluation service clock a db)).1,
      )
  unfolding evaluate result_with
  evaluate_asks t = rw (t, evaluate) refl

  -- What an evaluation answers.
  pub record IsAnswer (result : SafetyResult) (after : Db) : Type 0 where
    pub decided : result.decision ≡ decision_of service clock a db
    pub waits :
        result.mission_status ≡ MissionStatus.waiting_approval → result.decision ≡ require_approval
    pub runs :
        result.mission_status ≢ MissionStatus.waiting_approval
        → result.mission_status ≡ MissionStatus.running
    pub asks :
        result.decision ≡ require_approval
        → (result.mission_status ≡ MissionStatus.waiting_approval)
          × ((r : ApprovalRequest) × Memᴰ r after.requests
              × IsPendingFor service a r
              × (result.approval_request_id ≡ some r.id))
    pub settles : result.decision ≢ require_approval → result.approval_request_id ≡ none

  -- An evaluation decides by `evaluate_action` on the approvals and rules at hand. The mission
  -- waits for approval, and the answer names a pending request of the table for exactly this
  -- action of this mission, exactly if the decision requires an approval; otherwise the mission
  -- runs and no request is named.
  pub evaluate_lem : IsAnswer (evaluate service clock a db).0 (evaluate service clock a db).1
  unfolding result_with
  evaluate_lem = elim (Bool-cases (wants_approval (decision_of service clock a db))) [
    | inl t ↦
        let (m, p) = ask_approval_sound service clock a (log_evaluation service clock a db) in
        rw (evaluate_asks t) (record {
          decided = refl;
          waits = λ e. ground (arith, t);
          runs = λ n. absurd (n refl);
          asks = λ e. (refl, (_, m, p, refl));
          settles = λ n. absurd (n (ground (arith, t)));
        })
    | inr t ↦ rw (evaluate_settled t) (record {
      decided = refl;
      waits = λ e. cc;
      runs = λ n. refl;
      asks = λ e. absurd (ground (arith, t, e));
      settles = λ n. refl;
    })
  ]
