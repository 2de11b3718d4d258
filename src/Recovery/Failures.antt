-- ===== src/Recovery/Failures.antt =====
-- recovery/service.py: counting the failures of a component.
use ai_hq.Prelude.{
  ℕ, suc, ◌+◌, ◌≤◌, leb, ltb, String, false, Option, none, some, List, [], ◌∷◌, ◌≡◌, refl, ap,
  subst, ◌∙◌, arith, if◌then◌else◌, length,
}
use ai_hq.Prelude.Result.{ok}
use ai_hq.Prelude.Rows.{find}
use ai_hq.Prelude.Rows.Finds.{find-append_none}
use ai_hq.Json.{Fields, end}
use ai_hq.Tables.Recovery.{RecoveryDb, RecoveryIncident, suspect, diagnosing}
use ai_hq.Recovery.Incidents.{
  RecoveryService, active_key, incident_with_key, has_active_key, put_incident, observe_failure,
  failed_again, first_failure, bounded_or,
}
use ai_hq.Recovery.Consistent.{IsConsistent, step-IsConsistent}
use ai_hq.Recovery.Calls.{held_key, perform, perform-IsStep, observes}
use ai_hq.Recovery.Keys.{key_kept}

-- A failure as it is observed: the moment, and the diagnostics.
pub record Failure : Type 0 where
  pub at_time : ℕ
  pub diagnostics : Option Fields

module _ (service : RecoveryService) (component : String) where
  unfoldable pub observe_all : List Failure → RecoveryDb → RecoveryDb
  observe_all [] db = db
  observe_all (f ∷ fs) db =
      observe_all fs (observe_failure service f.at_time component f.diagnostics db).1

  -- Each failure comes at least one observation interval after the one before.
  abbrev pub Spaced : ℕ → List Failure → Type 0
  Spaced t [] = Unit
  Spaced t (f ∷ fs) = (t + service.observation_seconds ≤ f.at_time) × Spaced f.at_time fs

  -- The incident after `n` failures, the last at the moment `t`.
  pub record IsCounting (n t : ℕ) (i : RecoveryIncident) : Type 0 where
    pub count : i.consecutive_failures ≡ n
    pub state : i.state ≡ (if leb service.failure_threshold n then diagnosing else suspect)
    pub last : i.last_observed_at ≡ t

  failed_again-IsCounting :
      (n t : ℕ) (f : Failure) (i : RecoveryIncident)
      → IsCounting n t i
      → IsCounting
          (n + 1)
          f.at_time
          (failed_again service f.at_time (bounded_or end f.diagnostics) i)
  unfolding failed_again
  failed_again-IsCounting n t f i c = record {
    count = ap (λ k. k + 1) c.count;
    state = let a = c.count in let b = c.state in ground (arith, a, b);
    last = refl;
  }

  -- The open incident after all the failures.
  Counted : String → ℕ → RecoveryDb → Type 0
  Counted key total db =
      (i : RecoveryIncident) × (incident_with_key key db ≡ some i)
      × (i.consecutive_failures ≡ total)
      × (i.state ≡ (if leb service.failure_threshold total then diagnosing else suspect))

  observed_again :
      (key : String) (f : Failure) (db : RecoveryDb) (i : RecoveryIncident)
      → active_key component ≡ ok key
      → incident_with_key key db ≡ some i
      → ltb f.at_time (i.last_observed_at + service.observation_seconds) ≡ false
      → (observe_failure service f.at_time component f.diagnostics db).1
        ≡ put_incident (failed_again service f.at_time (bounded_or end f.diagnostics) i) db
  unfolding observe_failure
  observed_again key f db i known found late = rw (observe_failure, known, found, late) refl

  observed_first :
      (key : String) (f : Failure) (db : RecoveryDb)
      → active_key component ≡ ok key
      → incident_with_key key db ≡ none
      → incident_with_key key (observe_failure service f.at_time component f.diagnostics db).1
        ≡ some (first_failure db.next_id f.at_time key component (bounded_or end f.diagnostics))
  unfolding observe_failure incident_with_key find
  observed_first key f db known absent =
      rw (observe_failure, known, absent)
        (find-append_none (has_active_key key) db.incidents _ absent
          ∙ (rw
              (held_key key
                (first_failure db.next_id f.at_time key component (bounded_or end f.diagnostics))
                refl)
              refl))

  observed-IsConsistent :
      (f : Failure) (db : RecoveryDb)
      → IsConsistent db
      → IsConsistent (observe_failure service f.at_time component f.diagnostics db).1
  unfolding perform
  observed-IsConsistent f db inv =
      step-IsConsistent db _
        (perform-IsStep service db inv (observes f.at_time component f.diagnostics)) inv

  failures_add :
      (key : String) (fs : List Failure) (db : RecoveryDb) (i : RecoveryIncident) (n t total : ℕ)
      → IsConsistent db
      → active_key component ≡ ok key
      → incident_with_key key db ≡ some i
      → IsCounting n t i
      → Spaced t fs
      → n + length fs ≡ total
      → Counted key total (observe_all fs db)
  unfolding observe_all Counted
  failures_add key [] db i n t total inv known found c spaced q =
      let same : n ≡ total = omega (arith, q) in
      (
        i,
        found,
        c.count ∙ same,
        subst (λ k. i.state ≡ (if leb service.failure_threshold k then diagnosing else suspect))
            same c.state,
      )
  failures_add key (f ∷ fs) db i n t total inv known found c spaced q =
      let on_time : ltb f.at_time (i.last_observed_at + service.observation_seconds) ≡ false =
        let (s, _) = spaced in let l = c.last in ground (arith, s, l) in
      let after = observed_again key f db i known found on_time in
      failures_add key fs _ (failed_again service f.at_time (bounded_or end f.diagnostics) i)
        (n + 1) f.at_time total (observed-IsConsistent f db inv) known
        (rw after (unfold failed_again in key_kept db inv key i _ found refl refl))
        (failed_again-IsCounting n t f i c) spaced.1 (omega (arith, q))

  -- If a component has no open incident, then after failures that come at least one observation
  -- interval apart it has one, whose count is their number, and which is under diagnosis exactly
  -- if that number reaches the threshold, which is at least 2.
  pub failures_counted :
      (key : String) (f : Failure) (fs : List Failure) (db : RecoveryDb)
      → IsConsistent db
      → 2 ≤ service.failure_threshold
      → active_key component ≡ ok key
      → incident_with_key key db ≡ none
      → Spaced f.at_time fs
      → (i : RecoveryIncident) × (incident_with_key key (observe_all (f ∷ fs) db) ≡ some i)
        × (i.consecutive_failures ≡ suc (length fs))
        × (i.state
            ≡ (if leb service.failure_threshold (suc (length fs)) then diagnosing else suspect))
  unfolding observe_all Counted
  failures_counted key f fs db inv two known absent spaced =
      failures_add key fs _ _ 1 f.at_time (suc (length fs)) (observed-IsConsistent f db inv) known
        (observed_first key f db known absent)
        (record { count = refl; state = ground (arith, two); last = refl }) spaced (omega arith)
