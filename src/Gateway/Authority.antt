-- ===== src/Gateway/Authority.antt =====
-- tool_gateway/service.py: what stands behind a call of an adapter.
use ai_hq.Prelude.{
  ℕ, Bool, true, false, Option, none, some, [], ◌∷◌, ◌++◌, if◌then◌else◌, ◌≡◌, refl, sym, ap, subst,
  ◌∙◌, inl, inr, arith, Option-cases, some_cancel,
}
use ai_hq.Prelude.Result.{Result, ok, err, is_ok}
use ai_hq.Tables.{Db}
use ai_hq.Tables.Approvals.{ScopedApprovalRule}
use ai_hq.Tools.{
  ToolOutcomeState, blocked, executed, failed, ToolRequest, ToolOutcome, ToolAdapter, resolve,
}
use ai_hq.Approvals.Rules.{consume_rule}
use ai_hq.Safety.Policy.{Decision, allow, require_approval, simulate_only, block}
use ai_hq.Safety.Permissions.{MayRun, allow_iff}
use ai_hq.Safety.Service.{
  SafetyResult, ProposedAction, evaluate, decision_of, intent_of, system_state, rule_now,
}
use ai_hq.Safety.Requests.{evaluate_lem, evaluate_settled, result_with}
use mathlib.Core.Option
use ai_hq.Safety.Frame.{evaluate-IsFramed}
use ai_hq.Gateway.Service.{
  ToolGateway, has_exact_permission, action_of, log_result, log_executed, run_adapter, outcome_of,
  proceed, act, execute,
}

-- The outcomes that stand for a call of the adapter.
abbrev pub was_called : ToolOutcomeState → Bool
was_called executed = true
was_called failed = true
was_called _ = false

-- The calls after an outcome.
abbrev CallsMatch : ToolRequest → Db → ToolOutcome × Db → Type 0
CallsMatch r db p = p.1.calls ≡ (if was_called p.0.state then db.calls ++ r ∷ [] else db.calls)

run_adapter-calls :
    (adapter : ToolAdapter) (r : ToolRequest) (db db' : Db)
    → db'.calls ≡ db.calls
    → CallsMatch r db (run_adapter adapter r db')
unfolding run_adapter log_result log_executed
run_adapter-calls adapter r db db' e = elim (Option-cases (adapter.execute db'.calls r)) [
  | inl n ↦ rw (n, run_adapter) (ap (λ l. l ++ r ∷ []) e)
  | inr (x, h) ↦ rw (h, run_adapter) (ap (λ l. l ++ r ∷ []) e)
]

consume_rule-calls : (now k : ℕ) (db : Db) → (consume_rule now k db).1.calls ≡ db.calls
unfolding consume_rule
consume_rule-calls now k db = ground arith

-- What a mutation under a rule does with the result of the consumption.
unfoldable pub proceed_as :
    ToolAdapter → ToolRequest → Result ScopedApprovalRule × Db → ToolOutcome × Db
proceed_as adapter r (ok rule, db) = run_adapter adapter r db
proceed_as adapter r (err e, db) = (
  outcome_of blocked r none (some "scoped_rule_consumption_failed") none,
  log_result r blocked db,
)

pub proceed_lem :
    (now : ℕ) (adapter : ToolAdapter) (r : ToolRequest) (k : ℕ) (db : Db)
    → proceed true now adapter r (some k) db ≡ proceed_as adapter r (consume_rule now k db)
unfolding proceed proceed_as
proceed_lem now adapter r k db = by_result (consume_rule now k db)
  where
    by_result :
        (p : Result ScopedApprovalRule × Db)
        → ◌≡◌ {A = ToolOutcome × Db}
            (elim p.0 [
              | err e ↦ (
                outcome_of blocked r none (some "scoped_rule_consumption_failed") none,
                log_result r blocked p.1,
              )
              | ok rule ↦ run_adapter adapter r p.1
            ])
            (proceed_as adapter r p)
    by_result (ok x, d) = refl
    by_result (err e, d) = refl

proceed_as-calls :
    (adapter : ToolAdapter) (r : ToolRequest) (p : Result ScopedApprovalRule × Db) (db : Db)
    → p.1.calls ≡ db.calls
    → CallsMatch r db (proceed_as adapter r p)
unfolding proceed_as log_result
proceed_as-calls adapter r (ok x, d) db e = run_adapter-calls adapter r db d e
proceed_as-calls adapter r (err x, d) db e = e

proceed-calls :
    (b : Bool) (now : ℕ) (adapter : ToolAdapter) (r : ToolRequest) (rule : Option ℕ) (db db' : Db)
    → db'.calls ≡ db.calls
    → CallsMatch r db (proceed b now adapter r rule db')
unfolding proceed
proceed-calls true now adapter r (some k) db db' e =
    subst (CallsMatch r db) (sym (proceed_lem now adapter r k db'))
      (proceed_as-calls adapter r (consume_rule now k db') db (consume_rule-calls now k db' ∙ e))
proceed-calls true now adapter r none db db' e = run_adapter-calls adapter r db db' e
proceed-calls false now adapter r rule db db' e = run_adapter-calls adapter r db db' e

act-calls :
    (now : ℕ) (adapter : ToolAdapter) (r : ToolRequest) (ok_ : Bool) (s : SafetyResult)
    (d : Decision) (db db' : Db)
    → db'.calls ≡ db.calls
    → CallsMatch r db (act now adapter r ok_ s d db')
unfolding act log_result
act-calls now adapter r p s block db db' e = e
act-calls now adapter r p s require_approval db db' e = e
act-calls now adapter r p s simulate_only db db' e = e
act-calls now adapter r p s allow db db' e =
    proceed-calls r.mutates_external_state now adapter r s.scoped_rule_id db db' e

-- A request reaches an adapter exactly if its outcome is `EXECUTED` or `FAILED`, once and
-- unchanged; every other outcome leaves the outside world alone.
pub execute_calls :
    (gateway : ToolGateway) (clock : ℕ → ℕ) (r : ToolRequest) (db : Db)
    → (execute gateway clock r db).1.calls
      ≡ (if was_called (execute gateway clock r db).0.state then db.calls ++ r ∷ [] else db.calls)
unfolding execute
execute_calls gateway clock r db = elim (Option-cases (resolve gateway.registry r.capability)) [
  | inl n ↦ rw (n, execute) refl
  | inr (adapter, h) ↦
      let a = action_of r (has_exact_permission r.agent_key r.capability db) in
      let frame = evaluate-IsFramed gateway.safety clock a db in
      rw (h, execute)
        (act-calls (clock 4) adapter r _ (evaluate gateway.safety clock a db).0 _ db
          (evaluate gateway.safety clock a db).1 frame.calls)
]

proceed_as-called :
    (adapter : ToolAdapter) (r : ToolRequest) (p : Result ScopedApprovalRule × Db)
    → was_called (proceed_as adapter r p).0.state ≡ true
    → is_ok p.0 ≡ true
unfolding proceed_as
proceed_as-called adapter r (ok x, d) h = refl
proceed_as-called adapter r (err x, d) h = cc

proceed-called :
    (b : Bool) (now : ℕ) (adapter : ToolAdapter) (r : ToolRequest) (rule : Option ℕ) (db : Db)
    → was_called (proceed b now adapter r rule db).0.state ≡ true
    → (k : ℕ) → b ≡ true
    → rule ≡ some k
    → is_ok (consume_rule now k db).0 ≡ true
proceed-called true now adapter r (some j) db h k b e =
    subst (λ i. is_ok (consume_rule now i db).0 ≡ true) (some_cancel e)
      (proceed_as-called adapter r (consume_rule now j db) (
        subst (λ (p : ToolOutcome × Db). was_called p.0.state ≡ true)
          (proceed_lem now adapter r j db) h))
proceed-called true now adapter r none db h k b e = cc
proceed-called false now adapter r rule db h k b e = cc

act-called :
    (now : ℕ) (adapter : ToolAdapter) (r : ToolRequest) (p : Bool) (s : SafetyResult) (d : Decision)
    (db : Db)
    → was_called (act now adapter r p s d db).0.state ≡ true
    → (d ≡ allow)
      × ((k : ℕ)
          → r.mutates_external_state ≡ true
          → s.scoped_rule_id ≡ some k
          → is_ok (consume_rule now k db).0 ≡ true)
unfolding act
act-called now adapter r p s block db h = cc
act-called now adapter r p s require_approval db h = cc
act-called now adapter r p s simulate_only db h = cc
act-called now adapter r p s allow db h =
    (refl, proceed-called r.mutates_external_state now adapter r s.scoped_rule_id db h)

module _ (gateway : ToolGateway) (clock : ℕ → ℕ) (r : ToolRequest) (db : Db) where
  -- The action that the gateway has the safety service decide on.
  abbrev pub proposed : ProposedAction
  proposed = action_of r (has_exact_permission r.agent_key r.capability db)

  -- What stands behind a call of an adapter.
  pub record Authority : Type 0 where
    pub registered :
        (adapter : ToolAdapter) × (resolve gateway.registry r.capability ≡ some adapter)
    pub permitted : has_exact_permission r.agent_key r.capability db ≡ true
    pub known_state : (system_state db).2 ≡ true
    pub may_run :
        MayRun (intent_of gateway.safety clock proposed db) (system_state db).0 (system_state db).1
    pub consumed :
        (rule : ScopedApprovalRule)
        → r.mutates_external_state ≡ true
        → rule_now gateway.safety clock proposed db ≡ some rule
        → is_ok (consume_rule (clock 4) rule.id (evaluate gateway.safety clock proposed db).1).0
          ≡ true

  -- The rule that the evaluation of an allowed action names.
  allowed_rule :
      (rule : ScopedApprovalRule)
      → decision_of gateway.safety clock proposed db ≡ allow
      → rule_now gateway.safety clock proposed db ≡ some rule
      → (evaluate gateway.safety clock proposed db).0.scoped_rule_id ≡ some rule.id
  unfolding result_with
  allowed_rule rule d e =
      ap (λ (q : SafetyResult × Db). q.0.scoped_rule_id)
        (evaluate_settled gateway.safety clock proposed db (rw d refl))
      ∙ ap (Option.map (λ (x : ScopedApprovalRule). x.id)) e

  authority_of :
      (adapter : ToolAdapter)
      → resolve gateway.registry r.capability ≡ some adapter
      → (evaluate gateway.safety clock proposed db).0.decision ≡ allow
      → ((k : ℕ)
          → r.mutates_external_state ≡ true
          → (evaluate gateway.safety clock proposed db).0.scoped_rule_id ≡ some k
          → is_ok (consume_rule (clock 4) k (evaluate gateway.safety clock proposed db).1).0 ≡ true)
      → Authority
  unfolding intent_of decision_of action_of
  authority_of adapter h allowed used =
      let decided : decision_of gateway.safety clock proposed db ≡ allow =
        sym (evaluate_lem gateway.safety clock proposed db).decided ∙ allowed in
      let may =
        (allow_iff (intent_of gateway.safety clock proposed db) (system_state db).0
            (system_state db).1).0
          decided in
      record {
        registered = (adapter, h);
        permitted = let both = may.authorised in ground (arith, both);
        known_state = let both = may.authorised in ground (arith, both);
        may_run = may;
        consumed = λ rule m e. used rule.id m (allowed_rule rule decided e);
      }

  pub execute_authorised : was_called (execute gateway clock r db).0.state ≡ true → Authority
  unfolding execute
  execute_authorised h = elim (Option-cases (resolve gateway.registry r.capability)) [
    | inl n ↦ cc (rw (n, execute) at h)
    | inr (adapter, e) ↦
        let (allowed, used) =
          act-called (clock 4) adapter r _ (evaluate gateway.safety clock proposed db).0 _
            (evaluate gateway.safety clock proposed db).1 (rw (e, execute) at h) in
        authority_of adapter e allowed used
  ]
