-- ===== src/Gateway/Frame.antt =====
-- tool_gateway/service.py: what carrying out a request leaves alone.
use ai_hq.Prelude.{
  ℕ, ◌≤◌, Bool, true, false, Option, none, some, ◌≡◌, refl, subst, sym, inl, inr, arith,
  Option-cases,
}
use ai_hq.Prelude.Result.{Result, ok, err}
use ai_hq.Tables.{Db}
use ai_hq.Tables.Approvals.{ScopedApprovalRule}
use ai_hq.Tools.{ToolRequest, ToolAdapter, resolve}
use ai_hq.Approvals.Rules.{consume_rule}
use ai_hq.Safety.Policy.{Decision, allow, require_approval, simulate_only, block}
use ai_hq.Safety.Service.{SafetyResult, evaluate}
use ai_hq.Safety.Frame.{evaluate-IsFramed}
use ai_hq.Gateway.Service.{
  ToolGateway, has_exact_permission, action_of, log_result, log_executed, run_adapter, proceed, act,
  execute,
}
use ai_hq.Gateway.Authority.{proceed_as, proceed_lem}

-- Missions, their steps and the system's mode are as before, and no id is given twice.
pub record KeepsMissions (db after : Db) : Type 0 where
  pub missions : after.missions ≡ db.missions
  pub steps : after.steps ≡ db.steps
  pub ids : db.next_id ≤ after.next_id
  pub mode : after.system_state ≡ db.system_state

run_adapter-KeepsMissions :
    (adapter : ToolAdapter) (r : ToolRequest) (db after : Db)
    → KeepsMissions db after
    → KeepsMissions db (run_adapter adapter r after).1
unfolding run_adapter log_result log_executed
run_adapter-KeepsMissions adapter r db after k =
    elim (Option-cases (adapter.execute after.calls r)) [
      | inl n ↦
          rw (run_adapter, n)
            (record { missions = k.missions; steps = k.steps; ids = k.ids; mode = k.mode })
      | inr (x, h) ↦
          rw (run_adapter, h)
            (record { missions = k.missions; steps = k.steps; ids = k.ids; mode = k.mode })
    ]

consume_rule-KeepsMissions :
    (now k : ℕ) (db after : Db)
    → KeepsMissions db after
    → KeepsMissions db (consume_rule now k after).1
unfolding consume_rule
consume_rule-KeepsMissions now k db after h =
    let m = h.missions in
    let s = h.steps in
    let i = h.ids in
    let o = h.mode in
    record {
      missions = ground (arith, m);
      steps = ground (arith, s);
      ids = ground (arith, i);
      mode = ground (arith, o);
    }

proceed_as-KeepsMissions :
    (adapter : ToolAdapter) (r : ToolRequest) (p : Result ScopedApprovalRule × Db) (db : Db)
    → KeepsMissions db p.1
    → KeepsMissions db (proceed_as adapter r p).1
unfolding proceed_as log_result
proceed_as-KeepsMissions adapter r (ok x, d) db k = run_adapter-KeepsMissions adapter r db d k
proceed_as-KeepsMissions adapter r (err x, d) db k = record {
  missions = k.missions;
  steps = k.steps;
  ids = k.ids;
  mode = k.mode;
}

proceed-KeepsMissions :
    (b : Bool) (now : ℕ) (adapter : ToolAdapter) (r : ToolRequest) (rule : Option ℕ) (db after : Db)
    → KeepsMissions db after
    → KeepsMissions db (proceed b now adapter r rule after).1
unfolding proceed
proceed-KeepsMissions true now adapter r (some k) db after h =
    subst (λ p. KeepsMissions db p.1) (sym (proceed_lem now adapter r k after))
      (proceed_as-KeepsMissions adapter r (consume_rule now k after) db
        (consume_rule-KeepsMissions now k db after h))
proceed-KeepsMissions true now adapter r none db after h =
    run_adapter-KeepsMissions adapter r db after h
proceed-KeepsMissions false now adapter r rule db after h =
    run_adapter-KeepsMissions adapter r db after h

act-KeepsMissions :
    (now : ℕ) (adapter : ToolAdapter) (r : ToolRequest) (authorized : Bool) (s : SafetyResult)
    (d : Decision) (db after : Db)
    → KeepsMissions db after
    → KeepsMissions db (act now adapter r authorized s d after).1
unfolding act log_result
act-KeepsMissions now adapter r p s block db after k = k
act-KeepsMissions now adapter r p s require_approval db after k = k
act-KeepsMissions now adapter r p s simulate_only db after k = record {
  missions = k.missions;
  steps = k.steps;
  ids = k.ids;
  mode = k.mode;
}
act-KeepsMissions now adapter r p s allow db after k =
    proceed-KeepsMissions r.mutates_external_state now adapter r s.scoped_rule_id db after k

pub execute-KeepsMissions :
    (gateway : ToolGateway) (clock : ℕ → ℕ) (r : ToolRequest) (db : Db)
    → KeepsMissions db (execute gateway clock r db).1
unfolding execute
execute-KeepsMissions gateway clock r db =
    elim (Option-cases (resolve gateway.registry r.capability)) [
      | inl n ↦
          rw (execute, n) (record { missions = refl; steps = refl; ids = omega arith; mode = refl })
      | inr (adapter, h) ↦
          let a = action_of r (has_exact_permission r.agent_key r.capability db) in
          let f = evaluate-IsFramed gateway.safety clock a db in
          rw (execute, h)
            (act-KeepsMissions (clock 4) adapter r _ (evaluate gateway.safety clock a db).0 _ db
              (evaluate gateway.safety clock a db).1
              (record {
                missions = f.missions;
                steps = f.steps;
                ids = f.ids;
                mode = f.system_state;
              }))
    ]
