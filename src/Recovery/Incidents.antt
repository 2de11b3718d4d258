-- ===== src/Recovery/Incidents.antt =====
-- recovery/service.py: incidents, from the first failure to their end.
-- A call reads the clock once; `now` is what it reads. Failures of the database are left out.
use ai_hq.Prelude.{
  ℕ, suc, ◌+◌, String, Bool, not, ◌&&◌, ◌||◌, Option, none, some, [], ◌∷◌, ◌++◌, ◌==◌, ltb, leb,
  if◌then◌else◌, str_eq, is_none, when_some,
}
use Prim.Native.String.{◌++◌ as text_append}
use ai_hq.Prelude.Result.{Exec, Result, ok, err, key_error, value_error}
use ai_hq.Prelude.Rows.{find, update_where}
use ai_hq.Json.{Fields, end, field}
use ai_hq.Tables.Recovery.{
  RecoveryDb, RecoveryIncident, RecoveryIncidentState, same_state, suspect, diagnosing,
  recovery_pending, verifying, resolved, escalated,
}
use ai_hq.Recovery.Policy.{recovery_component}
use ai_hq.Recovery.Bounded.{bounded_mapping, cut}

pub record RecoveryService : Type 0 where
  pub failure_threshold : ℕ
  pub observation_seconds : ℕ
  pub cooldown_seconds : ℕ
  pub attempt_budget : ℕ
  pub budget_window_seconds : ℕ

-- The checks of the constructor.
unfoldable pub recovery_service : RecoveryService → Result RecoveryService
recovery_service s =
    if ltb s.failure_threshold 2
    then err (value_error "failure threshold must be at least 2")
    else if ltb s.observation_seconds 1
    then err (value_error "observation interval must be positive")
    else if ltb s.cooldown_seconds 1
    then err (value_error "recovery cooldown must be positive")
    else if ltb s.attempt_budget 1
    then err (value_error "recovery attempt budget must be positive")
    else if ltb s.budget_window_seconds s.cooldown_seconds
    then err (value_error "recovery budget window must cover cooldown")
    else ok s

-- `f"dripvid:{component}"`
abbrev pub key_of : String → String
key_of component = text_append "dripvid:" component

-- `_active_key`
unfoldable pub active_key : String → Result String
unfolding recovery_component
active_key component = elim (recovery_component component) [
  | none ↦ err (value_error "unknown recovery component")
  | some c ↦ ok (key_of component)
]

abbrev pub has_incident_id : ℕ → RecoveryIncident → Bool
has_incident_id id i = i.id == id

abbrev pub has_active_key : String → RecoveryIncident → Bool
has_active_key key i = when_some i.active_key (λ k. str_eq k key)

-- `db.get(RecoveryIncident, incident_id)`
unfoldable pub incident_row : ℕ → RecoveryDb → Option RecoveryIncident
unfolding find
incident_row id db = find (has_incident_id id) db.incidents

unfoldable pub incident_with_key : String → RecoveryDb → Option RecoveryIncident
unfolding find
incident_with_key key db = find (has_active_key key) db.incidents

-- Writing the changed incident back.
unfoldable pub put_incident : RecoveryIncident → RecoveryDb → RecoveryDb
unfolding update_where
put_incident i db = record db {
  incidents = update_where (has_incident_id i.id) (λ _. i) db.incidents;
}

unfoldable pub get_incident : ℕ → Exec RecoveryDb RecoveryIncident
unfolding incident_row
get_incident id db = elim (incident_row id db) [
  | none ↦ (err (key_error "recovery incident not found"), db)
  | some incident ↦ (ok incident, db)
]

unfoldable pub active_incident : String → RecoveryDb → Result (Option RecoveryIncident)
unfolding active_key incident_with_key
active_incident component db = elim (active_key component) [
  | err e ↦ err e
  | ok key ↦ ok (incident_with_key key db)
]

-- The id of a mission is never blank.
unfoldable pub incident_for_mission : ℕ → RecoveryDb → Option RecoveryIncident
unfolding find
incident_for_mission mission_id db =
    find (λ i. when_some i.recovery_mission_id (λ m. m == mission_id) && not (is_none i.active_key))
      db.incidents

-- Writing what becomes of an incident, unless it was refused.
abbrev pub written : Result RecoveryIncident → Exec RecoveryDb RecoveryIncident
written (err e) db = (err e, db)
written (ok changed) db = (ok changed, put_incident changed db)

-- Reading an incident, and either refusing or writing what becomes of it.
abbrev pub change :
    ℕ → (RecoveryIncident → Result RecoveryIncident) → Exec RecoveryDb RecoveryIncident
change id f db = elim (incident_row id db) [
  | none ↦ (err (key_error "recovery incident not found"), db)
  | some incident ↦ written (f incident) db
]

unfoldable pub diagnosed : ℕ → Fields → RecoveryIncident → Result RecoveryIncident
unfolding bounded_mapping
diagnosed now diagnostics i =
    if is_none i.active_key
    then err (value_error "terminal recovery incident cannot accept diagnostics")
    else ok (record i { diagnostics = bounded_mapping diagnostics; last_observed_at = now })

unfoldable pub update_diagnostics : ℕ → ℕ → Fields → Exec RecoveryDb RecoveryIncident
unfolding diagnosed incident_row put_incident
update_diagnostics now id diagnostics = change id (diagnosed now diagnostics)

-- `diagnostics` or `verification`, where they are given.
abbrev pub bounded_or : Fields → Option Fields → Fields
bounded_or default none = default
bounded_or default (some fs) = bounded_mapping fs

abbrev pub first_failure : ℕ → ℕ → String → String → Fields → RecoveryIncident
first_failure id now key component diagnostics = record {
  id = id;
  active_key = some key;
  target = "dripvid";
  component = component;
  state = suspect;
  consecutive_failures = 1;
  first_failure_at = now;
  last_failure_at = now;
  last_observed_at = now;
  diagnostics = diagnostics;
  verification = end;
  recovery_mission_id = none;
  last_recovery_attempt_at = none;
  escalation_reason = none;
  resolved_at = none;
}

-- `if bounded_diagnostics: ...`
abbrev pub or_previous : Fields → Fields → Fields
or_previous end old = old
or_previous (field k v fs) old = field k v fs

unfoldable pub failed_again : RecoveryService → ℕ → Fields → RecoveryIncident → RecoveryIncident
failed_again service now diagnostics i = record i {
  consecutive_failures = i.consecutive_failures + 1;
  last_failure_at = now;
  last_observed_at = now;
  diagnostics = or_previous diagnostics i.diagnostics;
  state =
      if same_state i.state suspect && leb service.failure_threshold (i.consecutive_failures + 1)
      then diagnosing
      else i.state;
}

unfoldable pub observe_failure :
    RecoveryService → ℕ → String → Option Fields → Exec RecoveryDb RecoveryIncident
unfolding active_key incident_with_key put_incident failed_again bounded_mapping
observe_failure service now component diagnostics db = elim (active_key component) [
  | err e ↦ (err e, db)
  | ok key ↦ elim (incident_with_key key db) [
    | none ↦
        let incident : RecoveryIncident =
          first_failure db.next_id now key component (bounded_or end diagnostics) in
        (
          ok incident,
          record db { incidents = db.incidents ++ incident ∷ []; next_id = suc db.next_id },
        )
    | some incident ↦
        let changed : RecoveryIncident =
          failed_again service now (bounded_or end diagnostics) incident in
        if ltb now (incident.last_observed_at + service.observation_seconds)
        then (ok incident, db)
        else (ok changed, put_incident changed db)
  ]
]

unfoldable pub healed : ℕ → Option Fields → RecoveryIncident → RecoveryIncident
unfolding bounded_mapping
healed now verification i = record i {
  state = resolved;
  active_key = none;
  consecutive_failures = 0;
  last_observed_at = now;
  resolved_at = some now;
  verification = bounded_or end verification;
}

unfoldable pub resolve_if_healthy :
    ℕ → String → Option Fields → Exec RecoveryDb (Option RecoveryIncident)
unfolding active_key incident_with_key put_incident healed
resolve_if_healthy now component verification db = elim (active_key component) [
  | err e ↦ (err e, db)
  | ok key ↦ elim (incident_with_key key db) [
    | none ↦ (ok none, db)
    | some incident ↦
        let changed : RecoveryIncident = healed now verification incident in
        (ok (some changed), put_incident changed db)
  ]
]

unfoldable pub pended : ℕ → RecoveryIncident → Result RecoveryIncident
pended now i =
    if is_none i.active_key
    then err (value_error "terminal recovery incident cannot be pending")
    else if not (
        same_state i.state suspect
        || same_state i.state diagnosing
        || same_state i.state recovery_pending)
    then err (value_error "recovery incident cannot become pending")
    else ok (record i { state = recovery_pending; last_observed_at = now })

unfoldable pub mark_recovery_pending : ℕ → ℕ → Exec RecoveryDb RecoveryIncident
unfolding pended incident_row put_incident
mark_recovery_pending now id = change id (pended now)

unfoldable pub resolve : ℕ → ℕ → Option Fields → Exec RecoveryDb RecoveryIncident
unfolding healed incident_row put_incident
resolve now id verification = change id (λ i. ok (healed now verification i))

unfoldable pub given_up : ℕ → String → Option Fields → RecoveryIncident → RecoveryIncident
unfolding cut bounded_mapping
given_up now reason diagnostics i = record i {
  state = escalated;
  active_key = none;
  escalation_reason = some (cut 2048 reason);
  resolved_at = some now;
  last_observed_at = now;
  diagnostics = bounded_or i.diagnostics diagnostics;
}

unfoldable pub escalate : ℕ → ℕ → String → Option Fields → Exec RecoveryDb RecoveryIncident
unfolding given_up incident_row put_incident
escalate now id reason diagnostics db =
    let changed = change id (λ i. ok (given_up now reason diagnostics i)) db in
    if str_eq reason ""
    then (err (value_error "recovery escalation reason is required"), db)
    else changed

unfoldable pub moved_on :
    ℕ → RecoveryIncidentState → Option Fields → RecoveryIncident → Result RecoveryIncident
unfolding bounded_mapping
moved_on now state verification i =
    if is_none i.active_key
    then err (value_error "terminal recovery incident cannot transition")
    else ok (record i {
      state = state;
      last_observed_at = now;
      verification = bounded_or i.verification verification;
    })

-- `_set_active_state`
unfoldable pub set_active_state :
    ℕ → ℕ → RecoveryIncidentState → Option Fields → Exec RecoveryDb RecoveryIncident
unfolding moved_on incident_row put_incident
set_active_state now id state verification = change id (moved_on now state verification)

unfoldable pub mark_verifying : ℕ → ℕ → Option Fields → Exec RecoveryDb RecoveryIncident
unfolding set_active_state
mark_verifying now id verification = set_active_state now id verifying verification
