-- ===== src/Tests/Recovery.antt =====
-- Recovery at concrete tables: an incident of the app from its first failure on.
use ai_hq.Prelude.{
  ℕ, String, Bool, true, false, none, some, List, [], ◌∷◌, ◌≤◌, ◌≡◌, ◌↔◌, refl, arith, Memᴰ,
}
use mathlib.Core.List.Memᴰ
use ai_hq.Prelude.Result.{ok}
use ai_hq.Json.{Fields, text, num, obj, end, field, count_fields}
use ai_hq.Tables.Recovery.{
  RecoveryDb, RecoveryIncident, RecoveryAttempt, RecoveryIncidentState, recovery_pending,
  diagnosing,
}
use ai_hq.Recovery.Policy.{decide_recovery, RecoveryAction}
use ai_hq.Recovery.Bounded.{bounded_mapping}
use ai_hq.Recovery.Sizes.{bounded_mapping_fits, fields_fit}
use ai_hq.Recovery.Incidents.{
  RecoveryService, recovery_service, incident_with_key, active_key, resolve_if_healthy,
  observe_failure, mark_recovery_pending,
}
use ai_hq.Recovery.Claims.{judge_incident, claim_recovery}
use ai_hq.Recovery.Conditions.{MayRecover}
use ai_hq.Recovery.Decisions.{recover_iff}
use ai_hq.Recovery.Allowance.{MayAttempt, judge_incident_iff}
use ai_hq.Recovery.Consistent.{IsConsistent, allowed_change}
use ai_hq.Recovery.Calls.{
  RecoveryCall, observes, marks_pending, claims, marks_verifying, resolves, perform, perform_all,
  perform_all-IsConsistent,
}
use ai_hq.Recovery.Progress.{perform_allowed}
use ai_hq.Recovery.Once.{total_wins, claimed_once}
use ai_hq.Recovery.Keys.{resolve_if_healthy_closes}
use ai_hq.Recovery.Failures.{Failure, observe_all, failures_counted}

abbrev standard : RecoveryService
standard = record {
  failure_threshold = 3;
  observation_seconds = 30;
  cooldown_seconds = 300;
  attempt_budget = 2;
  budget_window_seconds = 3600;
}

standard_accepted : recovery_service standard ≡ ok standard
unfolding recovery_service
standard_accepted = refl

abbrev no_incidents : RecoveryDb
no_incidents = record { incidents = []; attempts = []; next_id = 0 }

no_incidents-IsConsistent : IsConsistent no_incidents
no_incidents-IsConsistent = record {
  fresh = λ i m. absurd (Memᴰ.not-nil m);
  unique = λ i j m n e. absurd (Memᴰ.not-nil m);
  exclusive = λ i j key m n e f. absurd (Memᴰ.not-nil m);
  keyed = λ i m. absurd (Memᴰ.not-nil m);
}

-- Two failures, then two processes that claim the recovery.
abbrev story : List RecoveryCall
story =
    observes 0 "app" none
    ∷ observes 40 "app" none
    ∷ marks_pending 41 0
    ∷ claims 0
    ∷ claims 0
    ∷ marks_verifying 50 0 none
    ∷ resolves 60 0 none
    ∷ observes 70 "app" none
    ∷ []

story_wins : total_wins standard 0 story no_incidents ≡ 1
unfolding total_wins perform observe_failure mark_recovery_pending claim_recovery
story_wins = refl

claimed_once_example : total_wins standard 0 story no_incidents ≤ 1
claimed_once_example = claimed_once standard 0 story no_incidents no_incidents-IsConsistent

perform_all-IsConsistent_example : IsConsistent (perform_all standard story no_incidents)
perform_all-IsConsistent_example =
    perform_all-IsConsistent standard story no_incidents no_incidents-IsConsistent

abbrev app_key : String
app_key = "dripvid:app"

app_known : active_key "app" ≡ ok app_key
unfolding active_key
app_known = refl

abbrev first : Failure
first = record { at_time = 0; diagnostics = none }

abbrev later : List Failure
later =
    record { at_time = 40; diagnostics = none } ∷ record { at_time = 80; diagnostics = none } ∷ []

failures_counted_example :
    (i : RecoveryIncident) × (incident_with_key app_key
        (observe_all standard "app" (first ∷ later) no_incidents)
      ≡ some i)
    × (i.consecutive_failures ≡ 3)
    × (i.state ≡ diagnosing)
unfolding incident_with_key
failures_counted_example =
    failures_counted standard "app" app_key first later no_incidents no_incidents-IsConsistent
      (omega arith) app_known refl (omega arith, (omega arith, tt))

abbrev one_failure : RecoveryDb
one_failure = perform standard (observes 0 "app" none) no_incidents

one_failure-IsConsistent : IsConsistent one_failure
unfolding perform_all
one_failure-IsConsistent =
    perform_all-IsConsistent standard (observes 0 "app" none ∷ []) no_incidents
      no_incidents-IsConsistent

healthy_has_no_incident :
    incident_with_key app_key (resolve_if_healthy 50 "app" none one_failure).1 ≡ none
healthy_has_no_incident =
    resolve_if_healthy_closes 50 "app" app_key none one_failure one_failure-IsConsistent app_known

abbrev app_failed : RecoveryIncident
app_failed = record {
  id = 0;
  active_key = some app_key;
  target = "dripvid";
  component = "app";
  state = RecoveryIncidentState.suspect;
  consecutive_failures = 1;
  first_failure_at = 0;
  last_failure_at = 0;
  last_observed_at = 0;
  diagnostics = end;
  verification = end;
  recovery_mission_id = none;
  last_recovery_attempt_at = none;
  escalation_reason = none;
  resolved_at = none;
}

app_failed_stored : Memᴰ app_failed one_failure.incidents
unfolding perform observe_failure
app_failed_stored = Memᴰ.head refl

perform_allowed_example :
    (j : RecoveryIncident) × Memᴰ j (perform standard (marks_pending 41 0) one_failure).incidents
    × (j.id ≡ 0)
    × (j.component ≡ "app")
    × (allowed_change RecoveryIncidentState.suspect j.state ≡ true)
perform_allowed_example =
    perform_allowed standard (marks_pending 41 0) one_failure one_failure-IsConsistent app_failed
      app_failed_stored

abbrev app_pending : RecoveryIncident
app_pending = record app_failed { state = recovery_pending }

abbrev attempt_on_app : ℕ → Bool → RecoveryAttempt
attempt_on_app attempted_at simulated = record {
  id = attempted_at;
  incident_id = 0;
  target = "dripvid";
  component = "app";
  mission_id = none;
  attempted_at = attempted_at;
  simulated = simulated;
  outcome = "failed";
  result = end;
}

-- A real attempt within the window, a simulated one, and a real one before the window.
abbrev three_attempts : RecoveryDb
three_attempts = record {
  incidents = app_pending ∷ [];
  attempts = attempt_on_app 4000 false ∷ attempt_on_app 4100 true ∷ attempt_on_app 100 false ∷ [];
  next_id = 4101;
}

one_counts : (judge_incident standard 5000 app_pending three_attempts).real_attempts ≡ 1
unfolding judge_incident
one_counts = refl

judge_incident_iff_example :
    ((judge_incident standard 5000 app_pending three_attempts).allowed ≡ true)
    ↔ MayAttempt standard 5000 app_pending three_attempts
judge_incident_iff_example = judge_incident_iff standard 5000 app_pending three_attempts

same_text : String → String
same_text s = s

recover_iff_example :
    ((decide_recovery same_text (some "app") (some "failed") 3 3 end).action
      ≡ RecoveryAction.recover)
    ↔ MayRecover same_text (some "app") (some "failed") 3 3 end
recover_iff_example = recover_iff same_text (some "app") (some "failed") 3 3 end

abbrev nested : Fields
nested = field "service" (obj (field "state" (text "failed") end)) (field "checks" (num 3) end)

bounded_mapping_fits_example :
    (count_fields (bounded_mapping nested) ≤ 32) × (fields_fit 3 (bounded_mapping nested) ≡ true)
bounded_mapping_fits_example = bounded_mapping_fits nested
