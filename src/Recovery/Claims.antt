-- ===== src/Recovery/Claims.antt =====
-- recovery/service.py: whether an incident may be recovered, who recovers it, and the record of
-- what was tried.
use ai_hq.Prelude.{
  ℕ, suc, ◌+◌, String, Bool, true, false, not, ◌&&◌, ◌||◌, Option, none, some, [], ◌∷◌, ◌++◌, ◌==◌,
  ltb, leb, if◌then◌else◌, str_eq, is_none, when_some,
}
use ai_hq.Prelude.Result.{Exec, Result, ok, err, key_error, value_error, persistence_error}
use ai_hq.Prelude.Rows.{update_where, row_count}
use ai_hq.Json.{Fields, end}
use ai_hq.Tables.Recovery.{
  RecoveryDb, RecoveryIncident, RecoveryAttempt, same_state, recovery_pending, recovering,
}
use ai_hq.Recovery.Bounded.{bounded_mapping, text_length}
use ai_hq.Recovery.Incidents.{
  RecoveryService, has_incident_id, incident_row, put_incident, bounded_or,
}

pub record RecoveryAllowance : Type 0 where
  pub allowed : Bool
  pub reason : String
  pub real_attempts : ℕ

abbrev pub allowance : Bool → String → ℕ → RecoveryAllowance
allowance allowed reason real_attempts = record {
  allowed = allowed;
  reason = reason;
  real_attempts = real_attempts;
}

-- The `WHERE` of the count of attempts.
abbrev pub is_recent_real : RecoveryService → ℕ → RecoveryIncident → RecoveryAttempt → Bool
is_recent_real service now i a =
    str_eq a.target i.target
    && str_eq a.component i.component
    && not a.simulated
    && leb now (a.attempted_at + service.budget_window_seconds)

abbrev pub is_cooling : RecoveryService → ℕ → RecoveryIncident → Bool
is_cooling service now i =
    when_some i.last_recovery_attempt_at (λ at_time. ltb now (at_time + service.cooldown_seconds))

unfoldable pub judge_incident :
    RecoveryService → ℕ → RecoveryIncident → RecoveryDb → RecoveryAllowance
unfolding row_count
judge_incident service now i db =
    let real_attempts = row_count (is_recent_real service now i) db.attempts in
    if is_none i.active_key || not (same_state i.state recovery_pending)
    then allowance false "state_not_pending" 0
    else if leb service.attempt_budget real_attempts
    then allowance false "budget_exhausted" real_attempts
    else if is_cooling service now i
    then allowance false "cooldown" real_attempts
    else allowance true "allowed" real_attempts

unfoldable pub can_recover : RecoveryService → ℕ → ℕ → RecoveryDb → Result RecoveryAllowance
unfolding incident_row judge_incident
can_recover service now id db = elim (incident_row id db) [
  | none ↦ err (key_error "recovery incident not found")
  | some incident ↦ ok (judge_incident service now incident db)
]

-- What both conditional updates ask of the row.
abbrev pub is_pending_row : ℕ → RecoveryIncident → Bool
is_pending_row id i =
    has_incident_id id i && not (is_none i.active_key) && same_state i.state recovery_pending

abbrev pub is_attachable : ℕ → RecoveryIncident → Bool
is_attachable id i = is_pending_row id i && is_none i.recovery_mission_id

abbrev pub with_mission : ℕ → RecoveryIncident → RecoveryIncident
with_mission mission_id i = record i { recovery_mission_id = some mission_id }

-- What the update leaves.
unfoldable pub attached : ℕ → ℕ → RecoveryDb → RecoveryDb
unfolding update_where
attached id mission_id db = record db {
  incidents = update_where (is_attachable id) (with_mission mission_id) db.incidents;
}

-- The id of a mission is never empty.
unfoldable pub attach_mission : ℕ → ℕ → Exec RecoveryDb RecoveryIncident
unfolding attached row_count incident_row
attach_mission id mission_id db =
    if row_count (is_attachable id) db.incidents == 1
    then (elim (incident_row id (attached id mission_id db)) [
      | none ↦ (
        err (persistence_error "attached recovery incident disappeared"),
        attached id mission_id db,
      )
      | some incident ↦ (ok incident, attached id mission_id db)
    ])
    else (elim (incident_row id db) [
      | none ↦ (err (key_error "recovery incident not found"), db)
      | some incident ↦
          if when_some incident.recovery_mission_id (λ m. m == mission_id)
          then (ok incident, db)
          else if not (is_none incident.recovery_mission_id)
          then (err (value_error "recovery incident already has a mission"), db)
          else (err (value_error "recovery incident cannot attach a mission"), db)
    ])

abbrev pub set_recovering : RecoveryIncident → RecoveryIncident
set_recovering i = record i { state = recovering }

unfoldable pub claimed : ℕ → RecoveryDb → RecoveryDb
unfolding update_where
claimed id db = record db {
  incidents = update_where (is_pending_row id) set_recovering db.incidents;
}

unfoldable pub claim_recovery : ℕ → RecoveryDb → Bool × RecoveryDb
unfolding claimed row_count
claim_recovery id db =
    if row_count (is_pending_row id) db.incidents == 1 then (true, claimed id db) else (false, db)

unfoldable pub attempt_of :
    ℕ → ℕ → RecoveryIncident → Option ℕ → Bool → String → Option Fields → RecoveryAttempt
unfolding bounded_mapping
attempt_of id now i mission_id simulated outcome result = record {
  id = id;
  incident_id = i.id;
  target = i.target;
  component = i.component;
  mission_id = mission_id;
  attempted_at = now;
  simulated = simulated;
  outcome = outcome;
  result = bounded_or end result;
}

-- `if not simulated: ...`
abbrev pub attempted : Bool → ℕ → RecoveryIncident → RecoveryDb → RecoveryDb
attempted true now i db = db
attempted false now i db = put_incident (record i { last_recovery_attempt_at = some now }) db

unfoldable pub record_attempt :
    ℕ → ℕ → Option ℕ → Bool → String → Option Fields → Exec RecoveryDb RecoveryAttempt
unfolding attempt_of incident_row put_incident text_length
record_attempt now id mission_id simulated outcome result db =
    if str_eq outcome "" || ltb 32 (text_length outcome)
    then (err (value_error "invalid recovery attempt outcome"), db)
    else (elim (incident_row id db) [
      | none ↦ (err (key_error "recovery incident not found"), db)
      | some incident ↦
          let attempt : RecoveryAttempt =
            attempt_of db.next_id now incident mission_id simulated outcome result in
          let stored : RecoveryDb = record db {
            attempts = db.attempts ++ attempt ∷ [];
            next_id = suc db.next_id;
          } in
          (ok attempt, attempted simulated now incident stored)
    ])
