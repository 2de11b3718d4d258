-- ===== src/Tests/Safety.antt =====
-- Safety decisions at concrete intents and tables.
use ai_hq.Prelude.{◌≤◌, ◌≡◌, ◌↔◌, refl, true, false, arith}
use ai_hq.Json.{obj, end}
use ai_hq.Tables.Missions.{blue}
use ai_hq.Tables.System.{normal, safe}
use ai_hq.Safety.Policy.{ActionIntent, evaluate_action, allow}
use ai_hq.Safety.Permissions.{MayRun, allow_iff, strictness, evaluate_action_monotone}
use ai_hq.Safety.Service.{ProposedAction, ask_approval, evaluate}
use ai_hq.Safety.Requests.{IsAnswer, evaluate_lem, ask_approval_again}
use ai_hq.Safety.Frame.{IsFramed, evaluate-IsFramed}
use ai_hq.Tests.Data.{base, safety_service, clock_from}

abbrev unapproved : ActionIntent
unapproved = record {
  action = "service.restart";
  target = "dripvid";
  risk = blue;
  mutates_external_state = true;
  scoped_rule_allows = false;
  approved = false;
  authorization_available = true;
}

abbrev covered : ActionIntent
covered = record unapproved { scoped_rule_allows = true }

allow_iff_example : (evaluate_action covered normal false ≡ allow) ↔ MayRun covered normal false
allow_iff_example = allow_iff covered normal false

evaluate_action_monotone_example :
    strictness (evaluate_action covered normal false)
    ≤ strictness (evaluate_action unapproved safe true)
evaluate_action_monotone_example =
    evaluate_action_monotone unapproved covered safe normal true false
      (record {
        risk = refl;
        mutates = refl;
        rule = λ e. refl;
        approval = λ e. e;
        authority = λ e. e;
      })
      (omega arith) (λ e. refl)

abbrev restart : ProposedAction
restart = record {
  mission_id = 1;
  agent_key = "sysadmin";
  action = "service.restart";
  target = "dripvid";
  risk = blue;
  action_plan = obj end;
  conditions = obj end;
  mutates_external_state = true;
  authorization_available = true;
}

evaluate_lem_example :
    IsAnswer safety_service
      (clock_from 20)
      restart
      base
      (evaluate safety_service (clock_from 20) restart base).0
      (evaluate safety_service (clock_from 20) restart base).1
evaluate_lem_example = evaluate_lem safety_service (clock_from 20) restart base

restart_keeps_tables : IsFramed base (evaluate safety_service (clock_from 20) restart base).1
restart_keeps_tables = evaluate-IsFramed safety_service (clock_from 20) restart base

asked_twice :
    ask_approval safety_service
      (clock_from 40)
      restart
      (ask_approval safety_service (clock_from 20) restart base).1
    ≡ ask_approval safety_service (clock_from 20) restart base
unfolding ask_approval
asked_twice =
    ask_approval_again safety_service (clock_from 20) (clock_from 40) restart base (omega arith)
      (omega arith)
