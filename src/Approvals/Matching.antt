-- ===== src/Approvals/Matching.antt =====
-- Which requests and rules the queries of approvals/service.py find.
use ai_hq.Prelude.{
  ℕ, ◌<◌, String, true, false, none, some, ◌≡◌, ◌≢◌, ◌↔◌, refl, ◌∙◌, inl, inr, arith, Bool-cases,
  Memᴰ, eq_iff,
}
use ai_hq.Prelude.Rows.Distinct.{find-key}
use ai_hq.Prelude.Rows.Members.{
  any-mem, mem-any, where_rows-mem, mem-where_rows, find-mem, find-none,
}
use ai_hq.Json.{Json, json_eq}
use ai_hq.Tables.{Db}
use ai_hq.Tables.Missions.{MissionRisk, same_risk, red}
use ai_hq.Tables.Approvals.{ApprovalRequest, ScopedApprovalRule, approved}
use ai_hq.Approvals.Requests.{is_for, is_live, is_approved}
use ai_hq.Approvals.Rules.{
  is_about, is_usable, has_room, matching_scoped_rule, may_consume, rule_row, consume_rule,
  count_execution,
}
use ai_hq.Approvals.Budget.{HasRuleKeys, consume_rule_exact}
use ai_hq.Prelude.Result.{is_ok}

-- A live approval of exactly this action of this mission.
pub record IsApproval (now mission_id : ℕ) (fingerprint : String) (r : ApprovalRequest)
    : Type 0 where
  pub mission : r.mission_id ≡ mission_id
  pub action : r.action_fingerprint ≡ fingerprint
  pub granted : r.state ≡ approved
  pub live : now < r.expires_at

module _ (now mission_id : ℕ) (fingerprint : String) (db : Db) where
  -- An action counts as approved exactly if a request of its mission with its fingerprint is
  -- approved and has not expired.
  pub is_approved_iff :
      (is_approved now mission_id fingerprint db ≡ true)
      ↔ ((r : ApprovalRequest) × Memᴰ r db.requests × IsApproval now mission_id fingerprint r)
  unfolding is_approved
  is_approved_iff = (
    λ h.
        let (r, mr, live) = any-mem (is_live now) _ h in
        let (m, t) = where_rows-mem (is_for mission_id fingerprint approved) db.requests r mr in
        (r, m, ground (arith, live, t, eq_iff r.action_fingerprint fingerprint)),
    λ (r, m, a).
        mem-any (is_live now) _ r
          (mem-where_rows (is_for mission_id fingerprint approved) db.requests r m
            (ground (arith, a, eq_iff r.action_fingerprint fingerprint)))
          (ground (arith, a)),
  )

-- A rule that covers the action now and has a run left.
pub record IsMatch (now : ℕ) (action target : String) (risk : MissionRisk) (conditions : Json)
    (r : ScopedApprovalRule) : Type 0 where
  pub same_action : r.action ≡ action
  pub same_target : r.target ≡ target
  pub same_risk_as : r.risk ≡ risk
  pub same_conditions : json_eq r.conditions conditions ≡ true
  pub live : now < r.expires_at
  pub room : has_room r ≡ true

module _ (now : ℕ) (action target : String) (risk : MissionRisk) (conditions : Json) (db : Db) where
  of_tests_lem :
      (r : ScopedApprovalRule)
      → is_about action target risk r ≡ true
      → is_usable now conditions r ≡ true
      → IsMatch now action target risk conditions r
  unfolding is_usable
  of_tests_lem r a u = ground (arith, a, u, eq_iff r.action action, eq_iff r.target target)

  tests_of_match :
      (r : ScopedApprovalRule)
      → IsMatch now action target risk conditions r
      → (is_about action target risk r ≡ true) × (is_usable now conditions r ≡ true)
  unfolding is_usable
  tests_of_match r m = ground (arith, m, eq_iff r.action action, eq_iff r.target target)

  not_red_of_match : same_risk risk red ≡ false → risk ≢ red
  not_red_of_match t e = ground arith

  -- A rule that the query returns is in the table, covers the action at that moment with its exact
  -- action, target, risk and conditions, has a run left, and the action is not red.
  pub matching_scoped_rule_sound :
      (r : ScopedApprovalRule)
      → matching_scoped_rule now action target risk conditions db ≡ some r
      → Memᴰ r db.rules × IsMatch now action target risk conditions r × (risk ≢ red)
  unfolding matching_scoped_rule
  matching_scoped_rule_sound r h = elim (Bool-cases (same_risk risk red)) [
    | inl t ↦ cc (rw t at h)
    | inr t ↦
        let (mr, u) = find-mem (is_usable now conditions) _ r (rw t at h) in
        let (m, a) = where_rows-mem (is_about action target risk) db.rules r mr in
        (m, of_tests_lem r a u, not_red_of_match t)
  ]

  -- If the query returns nothing, the action is red or no rule of the table covers it.
  pub matching_scoped_rule_complete :
      matching_scoped_rule now action target risk conditions db ≡ none
      → risk ≢ red
      → (r : ScopedApprovalRule) → Memᴰ r db.rules
      → ¬ IsMatch now action target risk conditions r
  unfolding matching_scoped_rule
  matching_scoped_rule_complete h n r m k = elim (Bool-cases (same_risk risk red)) [
    | inl t ↦ n (ground (arith, t))
    | inr t ↦
        let (a, u) = tests_of_match r k in
        let no =
          find-none (is_usable now conditions) _ r (rw t at h)
            (mem-where_rows (is_about action target risk) db.rules r m a) in
        cc (no, u)
  ]

  -- A rule that the query returns can be consumed at that moment, if the keys of the table are
  -- distinct: the call succeeds and counts one more execution.
  pub matched_rule_consumes :
      (r : ScopedApprovalRule)
      → HasRuleKeys db
      → matching_scoped_rule now action target risk conditions db ≡ some r
      → (is_ok (consume_rule now r.id db).0 ≡ true)
        × (rule_row r.id (consume_rule now r.id db).1 ≡ some (count_execution r))
  matched_rule_consumes r keys h =
      let (m, k, n) = matching_scoped_rule_sound r h in
      let row : rule_row r.id db ≡ some r =
        unfold rule_row in find-key (λ x. x.id) db.rules r keys.distinct m in
      let (a, b, _) = consume_rule_exact now r.id db keys r row in
      let t : may_consume now r.id r ≡ true = ground (arith, k, n) in (a ∙ t, b ∙ (rw t refl))
