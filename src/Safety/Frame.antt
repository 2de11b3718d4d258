-- ===== src/Safety/Frame.antt =====
-- safety/service.py: what an evaluation leaves alone.
use ai_hq.Prelude.{
  ℕ, ◌≤◌, arith, List, [], ◌∷◌, ◌++◌, ◌≡◌, refl, sym, ap, ◌∙◌, inl, inr, Bool-cases, Option-cases,
}
use mathlib.Core.List.{append_assoc, append-nil}
use ai_hq.Tables.{Db}
use ai_hq.Tables.Ledger.{LedgerEvent}
use ai_hq.Tables.Approvals.{ApprovalRequest}
use ai_hq.Approvals.Requests.{pending_for_fingerprint}
use ai_hq.Safety.Service.{
  SafetyService, ProposedAction, fingerprint_of, log_evaluation, ask_approval, decision_of,
  wants_approval, evaluate,
}
use ai_hq.Safety.Requests.{with_request, ask_old, ask_new, evaluate_settled, evaluate_asks}

-- The tables that safety decisions read, and the missions, are as before; the ledger and the
-- approval requests only grow, and so does the counter of ids.
pub record IsFramed (db after : Db) : Type 0 where
  pub missions : after.missions ≡ db.missions
  pub steps : after.steps ≡ db.steps
  pub rules : after.rules ≡ db.rules
  pub agents : after.agents ≡ db.agents
  pub system_state : after.system_state ≡ db.system_state
  pub calls : after.calls ≡ db.calls
  pub ids : db.next_id ≤ after.next_id
  pub events : (more : List LedgerEvent) × (after.events ≡ db.events ++ more)
  pub requests : (more : List ApprovalRequest) × (after.requests ≡ db.requests ++ more)

IsFramed-trans : (a b c : Db) → IsFramed a b → IsFramed b c → IsFramed a c
IsFramed-trans a b c f g = record {
  missions = g.missions ∙ f.missions;
  steps = g.steps ∙ f.steps;
  rules = g.rules ∙ f.rules;
  agents = g.agents ∙ f.agents;
  system_state = g.system_state ∙ f.system_state;
  calls = g.calls ∙ f.calls;
  ids = let x = f.ids in let y = g.ids in omega (arith, x, y);
  events =
      let (x, ex) = f.events in
      let (y, ey) = g.events in
      (x ++ y, ey ∙ ap (λ (l : List LedgerEvent). l ++ y) ex ∙ append_assoc a.events x y);
  requests =
      let (x, ex) = f.requests in
      let (y, ey) = g.requests in
      (x ++ y, ey ∙ ap (λ (l : List ApprovalRequest). l ++ y) ex ∙ append_assoc a.requests x y);
}

module _ (service : SafetyService) (clock : ℕ → ℕ) (a : ProposedAction) where
  log_evaluation-IsFramed : (db : Db) → IsFramed db (log_evaluation service clock a db)
  unfolding log_evaluation
  log_evaluation-IsFramed db = record {
    missions = refl;
    steps = refl;
    rules = refl;
    agents = refl;
    system_state = refl;
    calls = refl;
    ids = omega arith;
    events = (_, append_assoc (db.events ++ _ ∷ []) _ _ ∙ append_assoc db.events _ _);
    requests = ([], sym (append-nil db.requests));
  }

  with_request-IsFramed : (db : Db) → IsFramed db (with_request service clock a db)
  unfolding with_request
  with_request-IsFramed db = record {
    missions = refl;
    steps = refl;
    rules = refl;
    agents = refl;
    system_state = refl;
    calls = refl;
    ids = omega arith;
    events = (_, refl);
    requests = (_, refl);
  }

  ask_approval-IsFramed :
      (db after : Db) → IsFramed db after → IsFramed db (ask_approval service clock a after).1
  ask_approval-IsFramed db after f =
      elim (Option-cases
        (pending_for_fingerprint (clock 2) a.mission_id (fingerprint_of service a) after)) [
          | inr (p, h) ↦ rw (ask_old service clock a after p h) f
          | inl h ↦ rw (ask_new service clock a after h) (
              IsFramed-trans db after (with_request service clock a after) f
                (with_request-IsFramed after))
        ]

  -- An evaluation changes no mission, step, rule or agent, not the system state, and calls no
  -- adapter; ledger and approval requests are only appended to.
  pub evaluate-IsFramed : (db : Db) → IsFramed db (evaluate service clock a db).1
  evaluate-IsFramed db = elim (Bool-cases (wants_approval (decision_of service clock a db))) [
    | inl t ↦
        rw (evaluate_asks service clock a db t) (
          ask_approval-IsFramed db (log_evaluation service clock a db) (log_evaluation-IsFramed db))
    | inr t ↦ rw (evaluate_settled service clock a db t) (log_evaluation-IsFramed db)
  ]
