-- ===== src/Gateway/Consent.antt =====
-- tool_gateway/service.py: the consent behind a mutation.
use ai_hq.Prelude.{ℕ, true, ◌≡◌, Memᴰ}
use ai_hq.Prelude.Result.{is_ok}
use ai_hq.Json.{obj}
use ai_hq.Tables.{Db}
use ai_hq.Tables.Missions.{blue}
use ai_hq.Tables.Approvals.{ApprovalRequest, ScopedApprovalRule}
use ai_hq.Tools.{ToolRequest}
use ai_hq.Approvals.Rules.{consume_rule}
use ai_hq.Approvals.Matching.{IsApproval, IsMatch}
use ai_hq.Safety.Service.{evaluate, fingerprint_of}
use ai_hq.Gateway.Service.{ToolGateway}
use ai_hq.Gateway.Authority.{proposed, Authority}

module _ (gateway : ToolGateway) (clock : ℕ → ℕ) (r : ToolRequest) (db : Db) where
  -- A person approved exactly this action of this mission, and the approval has not expired.
  abbrev pub Approved : Type 0
  Approved =
      (q : ApprovalRequest) × Memᴰ q db.requests
      × IsApproval (clock 0) r.mission_id
          (fingerprint_of gateway.safety (proposed gateway clock r db)) q

  -- A scoped rule covers this blue action, and one of its executions has been used up for it.
  abbrev pub Covered : Type 0
  Covered =
      (rule : ScopedApprovalRule) × Memᴰ rule db.rules
      × IsMatch (clock 1) r.capability r.target r.risk (obj r.conditions) rule
      × (r.risk ≡ blue)
      × (is_ok
            (consume_rule (clock 4) rule.id
              (evaluate gateway.safety clock (proposed gateway clock r db) db).1).0
          ≡ true)
