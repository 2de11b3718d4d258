-- ===== src/Approvals/Rules.antt =====
-- approvals/service.py: scoped rules, which let an action run a limited number of times.
-- A limit is a natural number: a negative one would, like 0, permit no run.
use ai_hq.Prelude.{
  ℕ, suc, ◌+◌, String, Bool, true, false, not, ◌&&◌, ◌||◌, Option, none, some, [], ◌∷◌, ◌++◌, ◌==◌,
  ltb, leb, if◌then◌else◌, str_eq,
}
use ai_hq.Prelude.Result.{Exec, ok, err, key_error, value_error}
use ai_hq.Prelude.Rows.{find, where_rows, update_where, row_count}
use ai_hq.Json.{Json, json_eq}
use ai_hq.Tables.{Db}
use ai_hq.Tables.Missions.{MissionRisk, same_risk, red}
use ai_hq.Tables.Approvals.{ScopedApprovalRule}

pub record NewRule : Type 0 where
  pub action : String
  pub target : String
  pub risk : MissionRisk
  pub conditions : Json
  pub expires_at : ℕ
  pub max_execution_count : Option ℕ

unfoldable pub rule_from : ℕ → NewRule → ScopedApprovalRule
rule_from id n = record {
  id = id;
  action = n.action;
  target = n.target;
  risk = n.risk;
  conditions = n.conditions;
  expires_at = n.expires_at;
  max_execution_count = n.max_execution_count;
  execution_count = 0;
}

unfoldable pub create_scoped_rule : NewRule → Db → ScopedApprovalRule × Db
unfolding rule_from
create_scoped_rule new db =
    let rule : ScopedApprovalRule = rule_from db.next_id new in
    (rule, record db { rules = db.rules ++ rule ∷ []; next_id = suc db.next_id })

-- `max_execution_count is None or execution_count < max_execution_count`
abbrev pub has_room : ScopedApprovalRule → Bool
has_room r = elim r.max_execution_count [ none ↦ true | some m ↦ ltb r.execution_count m ]

-- The `WHERE` of the query.
abbrev pub is_about : String → String → MissionRisk → ScopedApprovalRule → Bool
is_about action target risk r =
    str_eq r.action action && str_eq r.target target && same_risk r.risk risk

-- What the loop over the rules that it found does not skip.
unfoldable pub is_usable : ℕ → Json → ScopedApprovalRule → Bool
unfolding json_eq
is_usable now conditions r =
    if not (json_eq r.conditions conditions) || leb r.expires_at now then false else has_room r

unfoldable pub matching_scoped_rule :
    ℕ → String → String → MissionRisk → Json → Db → Option ScopedApprovalRule
unfolding find where_rows is_usable
matching_scoped_rule now action target risk conditions db =
    if same_risk risk red
    then none
    else find (is_usable now conditions) (where_rows (is_about action target risk) db.rules)

abbrev pub has_rule_id : ℕ → ScopedApprovalRule → Bool
has_rule_id id r = r.id == id

unfoldable pub rule_row : ℕ → Db → Option ScopedApprovalRule
unfolding find
rule_row id db = find (has_rule_id id) db.rules

-- The `WHERE` of the conditional update.
abbrev pub may_consume : ℕ → ℕ → ScopedApprovalRule → Bool
may_consume now rule_id r =
    has_rule_id rule_id r && not (same_risk r.risk red) && ltb now r.expires_at && has_room r

abbrev pub count_execution : ScopedApprovalRule → ScopedApprovalRule
count_execution r = record r { execution_count = r.execution_count + 1 }

unfoldable pub consumed : ℕ → ℕ → Db → Db
unfolding update_where
consumed now rule_id db = record db {
  rules = update_where (may_consume now rule_id) count_execution db.rules;
}

unfoldable pub consume_rule : ℕ → ℕ → Exec Db ScopedApprovalRule
unfolding row_count rule_row consumed
consume_rule now rule_id db =
    if row_count (may_consume now rule_id) db.rules == 1
    then elim (rule_row rule_id (consumed now rule_id db)) [
      | none ↦ (err (key_error "scoped approval rule not found"), consumed now rule_id db)
      | some rule ↦ (ok rule, consumed now rule_id db)
    ]
    else elim (rule_row rule_id db) [
      | none ↦ (err (key_error "scoped approval rule not found"), db)
      | some rule ↦
          if same_risk rule.risk red
          then (err (value_error "red actions cannot be authorized by scoped rules"), db)
          else if leb rule.expires_at now
          then (err (value_error "scoped approval rule expired"), db)
          else if not (has_room rule)
          then (err (value_error "scoped approval rule execution limit reached"), db)
          else (err (value_error "scoped approval rule could not be consumed"), db)
    ]
