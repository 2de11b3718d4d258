-- ===== src/Tests/Approvals.antt =====
-- Approvals and scoped rules at concrete tables.
use ai_hq.Prelude.{
  ℕ, ◌+◌, ◌≤◌, ◌≡◌, ◌≢◌, ◌↔◌, refl, true, false, some, none, [], ◌∷◌, if◌then◌else◌, Memᴰ, arith,
  List,
}
use ai_hq.Prelude.Result.{is_ok}
use ai_hq.Json.{obj, end}
use ai_hq.Tables.Missions.{blue, amber, red}
use ai_hq.Tables.Approvals.{ApprovalRequest, pending, denied}
use ai_hq.Approvals.Requests.{request_row, decide, is_approved}
use ai_hq.Approvals.Rules.{
  rule_row, consume_rule, may_consume, count_execution, matching_scoped_rule,
}
use ai_hq.Approvals.Budget.{
  HasRuleKeys, consume_rule_exact, RuleCall, consume, executions, executions_bounded,
}
use ai_hq.Approvals.Matching.{
  IsApproval, is_approved_iff, IsMatch, matching_scoped_rule_sound, matching_scoped_rule_complete,
  matched_rule_consumes,
}
use ai_hq.Approvals.Decisions.{
  decision, request_calls, decision_final, decide_exact, IsWaiting, IsDecided,
}
use ai_hq.Tests.Data.{base, rule_at, request_at, sample_digest}

base_keys : HasRuleKeys base
base_keys = record { distinct = (tt, tt); below = (omega arith, tt) }

rule_4 : rule_row 4 base ≡ some (rule_at 4)
unfolding rule_row
rule_4 = refl

-- Three workers race for the one execution that is left.
abbrev race : List RuleCall
race = consume 10 4 ∷ consume 11 4 ∷ consume 12 4 ∷ []

race_has_one_winner : executions 4 race base ≡ 1
unfolding executions consume_rule
race_has_one_winner = refl

executions_bounded_example : 1 + executions 4 race base ≤ 2
executions_bounded_example =
    executions_bounded 4 2 (rule_at 4) race base base_keys rule_4 refl (omega arith)

consume_rule_4 :
    (is_ok (consume_rule 10 4 base).0 ≡ may_consume 10 4 (rule_at 4))
    × (rule_row 4 (consume_rule 10 4 base).1
        ≡ some (if may_consume 10 4 (rule_at 4) then count_execution (rule_at 4) else rule_at 4))
    × (may_consume 10 4 (rule_at 4) ≡ false → (consume_rule 10 4 base).1 ≡ base)
consume_rule_4 = consume_rule_exact 10 4 base base_keys (rule_at 4) rule_4

matched_4 :
    matching_scoped_rule 10 "service.recover" "dripvid" blue (obj end) base ≡ some (rule_at 4)
unfolding matching_scoped_rule
matched_4 = refl

found_rule_covers :
    Memᴰ (rule_at 4) base.rules
    × IsMatch 10 "service.recover" "dripvid" blue (obj end) (rule_at 4)
    × (blue ≢ red)
found_rule_covers =
    matching_scoped_rule_sound 10 "service.recover" "dripvid" blue (obj end) base (rule_at 4)
      matched_4

unmatched : matching_scoped_rule 10 "service.recover" "dripvid" amber (obj end) base ≡ none
unfolding matching_scoped_rule
unmatched = refl

amber_is_unmatched : ¬ IsMatch 10 "service.recover" "dripvid" amber (obj end) (rule_at 4)
amber_is_unmatched =
    matching_scoped_rule_complete 10 "service.recover" "dripvid" amber (obj end) base unmatched
      (λ e. cc) (rule_at 4) (Memᴰ.head refl)

rule_4_consumes :
    (is_ok (consume_rule 10 4 base).0 ≡ true)
    × (rule_row 4 (consume_rule 10 4 base).1 ≡ some (count_execution (rule_at 4)))
rule_4_consumes =
    matched_rule_consumes 10 "service.recover" "dripvid" blue (obj end) base (rule_at 4) base_keys
      matched_4

is_approved_iff_example :
    (is_approved 20 1 "service.recover" base ≡ true)
    ↔ ((r : ApprovalRequest) × Memᴰ r base.requests × IsApproval 20 1 "service.recover" r)
is_approved_iff_example = is_approved_iff 20 1 "service.recover" base

request_3 : request_row 3 base ≡ some (request_at 3)
unfolding request_row
request_3 = refl

decision_final_example :
    request_row 3 (request_calls sample_digest (decision 30 3 denied ∷ []) base)
    ≡ some (request_at 3)
decision_final_example =
    decision_final sample_digest 3 (request_at 3) (decision 30 3 denied ∷ []) base (λ e. cc)
      request_3

decide_exact_example :
    ((is_ok (decide 30 3 denied base).0 ≡ true) ↔ ((denied ≢ pending) × IsWaiting 3 base))
    × (is_ok (decide 30 3 denied base).0 ≡ true
        → IsDecided 30 3 denied base (decide 30 3 denied base).1)
    × ((k : ℕ) → k ≢ 3 → request_row k (decide 30 3 denied base).1 ≡ request_row k base)
    × (is_ok (decide 30 3 denied base).0 ≡ false → (decide 30 3 denied base).1 ≡ base)
decide_exact_example = decide_exact 30 3 denied base
