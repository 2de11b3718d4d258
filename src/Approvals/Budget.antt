-- ===== src/Approvals/Budget.antt =====
-- approvals/service.py: the executions of scoped rules, in interleavings of the workers that consume
-- rules and the people who create them.
use ai_hq.Prelude.{
  ℕ, ◌+◌, ◌≤◌, ◌<◌, true, false, ◌&&◌, none, some, List, [], ◌∷◌, ◌==◌, if◌then◌else◌, ◌≡◌, refl,
  sym, ap, subst, ◌∙◌, ◌⊎◌, inl, inr, arith, Bool-cases, Option-cases,
}
use mathlib.Core.Option
use ai_hq.Prelude.Result.{ok, err, is_ok, key_error}
use ai_hq.Prelude.Rows.{row_count}
use ai_hq.Prelude.Rows.Finds.{find-update_where, find-append, find_test, updated}
use ai_hq.Prelude.Rows.Distinct.{
  Distinct, Below, Distinct-append, Below-append, Below-update, Distinct-update, row_count-key,
  row_count-no_key,
}
use ai_hq.Tables.{Db}
use ai_hq.Tables.Approvals.{ScopedApprovalRule}
use ai_hq.Approvals.Rules.{
  NewRule, create_scoped_rule, has_room, has_rule_id, rule_row, may_consume, count_execution,
  consumed, consume_rule,
}

abbrev pub rule_key : ScopedApprovalRule → ℕ
rule_key r = r.id

-- The primary keys of the rules are distinct and below the counter.
pub record HasRuleKeys (db : Db) : Type 0 where
  pub distinct : Distinct rule_key db.rules
  pub below : Below rule_key db.next_id db.rules

consume_id : (now id : ℕ) (r : ScopedApprovalRule) → may_consume now id r ≡ true → rule_key r ≡ id
consume_id now id r h = ground (arith, h)

rule_row_id : (id : ℕ) (db : Db) {r : ScopedApprovalRule} → rule_row id db ≡ some r → r.id ≡ id
unfolding rule_row
rule_row_id id db {r} h = let t = find_test (has_rule_id id) db.rules h in ground (arith, t)

pub rule_row-consumed :
    (now id k : ℕ) (db : Db)
    → rule_row id (consumed now k db)
      ≡ Option.map (updated (may_consume now k) count_execution) (rule_row id db)
unfolding rule_row consumed
rule_row-consumed now id k db =
    find-update_where (has_rule_id id) (may_consume now k) count_execution db.rules
      (λ x. ground arith)

module _ (now k : ℕ) (db : Db) (keys : HasRuleKeys db) where
  -- The update counts the row exactly if the row meets its condition.
  consume_count :
      (r : ScopedApprovalRule)
      → rule_row k db ≡ some r
      → row_count (may_consume now k) db.rules ≡ (if may_consume now k r then 1 else 0)
  unfolding rule_row
  consume_count r h =
      row_count-key rule_key k (may_consume now k) db.rules r (consume_id now k) keys.distinct h

  consume_absent :
      rule_row k db ≡ none
      → consume_rule now k db ≡ (err (key_error "scoped approval rule not found"), db)
  unfolding consume_rule rule_row
  consume_absent h =
      let zero_rows =
        row_count-no_key rule_key k (may_consume now k) db.rules (consume_id now k) h in
      rw (zero_rows, consume_rule) (rw h refl)

  consume_granted :
      (r : ScopedApprovalRule)
      → rule_row k db ≡ some r
      → may_consume now k r ≡ true
      → consume_rule now k db ≡ (ok (count_execution r), consumed now k db)
  unfolding consume_rule
  consume_granted r h t =
      let one = consume_count r h in
      let after = rule_row-consumed now k k db in
      let row = after ∙ ap (Option.map (updated (may_consume now k) count_execution)) h in
      rw (one, consume_rule) (rw t (rw row (rw t refl)))

  consume_refused :
      (r : ScopedApprovalRule)
      → rule_row k db ≡ some r
      → may_consume now k r ≡ false
      → (is_ok (consume_rule now k db).0 ≡ false) × ((consume_rule now k db).1 ≡ db)
  unfolding consume_rule
  consume_refused r h t =
      let none_met = consume_count r h in rw (none_met, consume_rule) (rw t (rw h (ground arith)))

  -- With distinct keys, consuming a rule that is there succeeds exactly if the rule is not red, has
  -- not expired and has a run left; then its count grows by one, and otherwise no table changes.
  pub consume_rule_exact :
      (r : ScopedApprovalRule)
      → rule_row k db ≡ some r
      → (is_ok (consume_rule now k db).0 ≡ may_consume now k r)
        × (rule_row k (consume_rule now k db).1
            ≡ some (if may_consume now k r then count_execution r else r))
        × (may_consume now k r ≡ false → (consume_rule now k db).1 ≡ db)
  consume_rule_exact r h = elim (Bool-cases (may_consume now k r)) [
    | inl t ↦
        let after =
          rule_row-consumed now k k db
          ∙ ap (Option.map (updated (may_consume now k) count_execution)) h in
        rw (consume_granted r h t, t) (refl, rw after (rw t refl), λ q. cc)
    | inr t ↦
        let (no_result, same) = consume_refused r h t in rw (t, same) (no_result, h, λ q. refl)
  ]

consumed-HasRuleKeys : (now k : ℕ) (db : Db) → HasRuleKeys db → HasRuleKeys (consumed now k db)
unfolding consumed
consumed-HasRuleKeys now k db keys = record {
  distinct =
      Distinct-update rule_key (may_consume now k) count_execution db.rules (λ x. ground arith)
        keys.distinct;
  below =
      Below-update rule_key db.next_id (may_consume now k) count_execution db.rules
        (λ x. ground arith) keys.below;
}

-- Consuming a rule keeps the keys distinct.
pub consume_rule-HasRuleKeys :
    (now k : ℕ) (db : Db) → HasRuleKeys db → HasRuleKeys (consume_rule now k db).1
consume_rule-HasRuleKeys now k db keys = elim (Option-cases (rule_row k db)) [
  | inl n ↦ rw (consume_absent now k db keys n) keys
  | inr (r, h) ↦ elim (Bool-cases (may_consume now k r)) [
    | inl t ↦ rw (consume_granted now k db keys r h t) (consumed-HasRuleKeys now k db keys)
    | inr t ↦ rw (consume_refused now k db keys r h t).1 keys
  ]
]

pub create_scoped_rule-HasRuleKeys :
    (new : NewRule) (db : Db) → HasRuleKeys db → HasRuleKeys (create_scoped_rule new db).1
unfolding create_scoped_rule
create_scoped_rule-HasRuleKeys new db keys = record {
  distinct = Distinct-append rule_key db.next_id db.rules _ keys.below keys.distinct refl;
  below = Below-append rule_key db.next_id db.rules _ keys.below refl;
}

-- One call in an interleaving: a person creates a rule, or a worker consumes one at some moment.
pub data RuleCall : Type 0 where
  create : NewRule → RuleCall
  consume : ℕ → ℕ → RuleCall

unfoldable pub call : RuleCall → Db → Db
call (create new) db = (create_scoped_rule new db).1
call (consume now k) db = (consume_rule now k db).1

-- Whether the call was a consumption of the rule `id`, and succeeded.
unfoldable pub executes : ℕ → RuleCall → Db → ℕ
executes id (create new) db = 0
executes id (consume now k) db = if (k == id) && is_ok (consume_rule now k db).0 then 1 else 0

-- The successful consumptions of one rule in an interleaving.
unfoldable pub executions : ℕ → List RuleCall → Db → ℕ
unfolding executes call
executions id [] db = 0
executions id (c ∷ cs) db = executes id c db + executions id cs (call c db)

-- What one call does to a rule: its limit stays, and its count grows by the call's success.
Progress : ℕ → ScopedApprovalRule → RuleCall → Db → Type 0
Progress id r c db =
    (r' : ScopedApprovalRule) × (rule_row id (call c db) ≡ some r')
    × (r'.max_execution_count ≡ r.max_execution_count)
    × (r'.execution_count ≡ r.execution_count + executes id c db)
    × ((executes id c db ≡ 0) ⊎ (has_room r ≡ true))

-- Consuming the rule itself.
consume_own-Progress :
    (now id : ℕ) (r : ScopedApprovalRule) (db : Db)
    → HasRuleKeys db
    → rule_row id db ≡ some r
    → Progress id r (consume now id) db
unfolding Progress call executes
consume_own-Progress now id r db keys h =
    let (a, b, _) = consume_rule_exact now id db keys r h in
    elim (Bool-cases (may_consume now id r)) [
      | inl t ↦
          (count_execution r, b ∙ (rw t refl), refl, ground (arith, a, t), inr (ground (arith, t)))
      | inr t ↦ (r, b ∙ (rw t refl), refl, ground (arith, a, t), inl (ground (arith, a, t)))
    ]

-- Consuming another rule.
row_apart :
    (now id k : ℕ) (r : ScopedApprovalRule) (db : Db)
    → HasRuleKeys db
    → rule_row id db ≡ some r
    → (k == id) ≡ false
    → rule_row id (consume_rule now k db).1 ≡ some r
row_apart now id k r db keys h t = elim (Option-cases (rule_row k db)) [
  | inl n ↦ rw (consume_absent now k db keys n) h
  | inr (x, row) ↦ elim (Bool-cases (may_consume now k x)) [
    | inl u ↦
        let after =
          rule_row-consumed now id k db
          ∙ ap (Option.map (updated (may_consume now k) count_execution)) h in
        let spared : may_consume now k r ≡ false =
          let i = rule_row_id id db h in ground (arith, i, t) in
        rw (consume_granted now k db keys x row u) (rw after (rw spared refl))
    | inr u ↦ rw (consume_refused now k db keys x row u).1 h
  ]
]

call-Progress :
    (id : ℕ) (r : ScopedApprovalRule) (c : RuleCall) (db : Db)
    → HasRuleKeys db
    → rule_row id db ≡ some r
    → Progress id r c db
unfolding Progress call executes
call-Progress id r (create new) db keys h = (
  r,
  unfold create_scoped_rule rule_row in find-append (has_rule_id id) db.rules _ h,
  refl,
  omega arith,
  inl refl,
)
call-Progress id r (consume now k) db keys h = elim (Bool-cases (k == id)) [
  | inl t ↦
      let e : k ≡ id = ground arith in
      subst (λ i. Progress id r (consume now i) db) (sym e)
        (consume_own-Progress now id r db keys h)
  | inr t ↦ (r, row_apart now id k r db keys h t, refl, rw t (omega arith), inl (rw t refl))
]

call-HasRuleKeys : (c : RuleCall) (db : Db) → HasRuleKeys db → HasRuleKeys (call c db)
unfolding call
call-HasRuleKeys (create new) db keys = create_scoped_rule-HasRuleKeys new db keys
call-HasRuleKeys (consume now k) db keys = consume_rule-HasRuleKeys now k db keys

room_below :
    (m : ℕ) (r : ScopedApprovalRule)
    → r.max_execution_count ≡ some m
    → has_room r ≡ true
    → r.execution_count < m
room_below m r e h = ground (arith, e, h)

-- In every interleaving of workers that consume rules and people who create rules, at whatever
-- times, the successful consumptions of a rule and those that it had before stay within its limit.
pub executions_bounded :
    (id m : ℕ) (r : ScopedApprovalRule) (cs : List RuleCall) (db : Db)
    → HasRuleKeys db
    → rule_row id db ≡ some r
    → r.max_execution_count ≡ some m
    → r.execution_count ≤ m
    → r.execution_count + executions id cs db ≤ m
unfolding executions Progress
executions_bounded id m r [] db keys h e le = omega arith
executions_bounded id m r (c ∷ cs) db keys h e le =
    let (r', row, limit, count, why) = call-Progress id r c db keys h in
    let at_most_one : executes id c db ≤ 1 = executes-le id c db in
    let within : r.execution_count + executes id c db ≤ m = elim why [
      | inl z ↦ omega (arith, z)
      | inr room ↦ omega (arith, room_below m r e room)
    ] in
    omega (
      arith,
      executions_bounded id m r' cs (call c db) (call-HasRuleKeys c db keys) row (limit ∙ e)
          (rw count within),
      count,
    )
  where
    executes-le : (id : ℕ) (c : RuleCall) (db : Db) → executes id c db ≤ 1
    executes-le id (create new) db = unfold executes in omega arith
    executes-le id (consume now k) db = unfold executes in ground arith
