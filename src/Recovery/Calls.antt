-- ===== src/Recovery/Calls.antt =====
-- The calls of the recovery service as steps of its tables, one after another as the worker, the
-- observer and the executors make them.
use ai_hq.Prelude.{
  ℕ, suc, ◌+◌, ltb, String, Bool, true, false, ◌||◌, Option, some, List, [], ◌∷◌, ◌==◌, ◌≡◌, refl,
  ap, subst, inl, inr, arith, Bool-cases, Option-cases, Memᴰ, str_eq, eq_iff, is_none, when_some,
}
use ai_hq.Prelude.Result.{ok, Result-cases, ok_cancel}
use ai_hq.Prelude.Rows.{row_count}
use ai_hq.Recovery.Changes.{
  stored-IsStep, put_incident-IsStep, change-IsStep, diagnosed-IsChange, pended-IsChange,
  verified-IsChange, healed-IsChange, given_up-IsChange, failed_again-IsChange,
  with_mission-IsChange, set_recovering-IsChange, attempted-IsChange,
}
use ai_hq.Prelude.Rows.Members.{find-mem, find-none}
use ai_hq.Json.{Fields, end}
use ai_hq.Tables.Recovery.{RecoveryDb, RecoveryIncident, RecoveryAttempt, verifying}
use ai_hq.Recovery.Policy.{recovery_component}
use ai_hq.Recovery.Bounded.{text_length}
use ai_hq.Recovery.Incidents.{
  RecoveryService, active_key, key_of, has_incident_id, has_active_key, incident_row,
  incident_with_key, update_diagnostics, diagnosed, observe_failure, first_failure, bounded_or,
  resolve_if_healthy, healed, mark_recovery_pending, pended, resolve, escalate, given_up, moved_on,
  set_active_state, mark_verifying,
}
use ai_hq.Recovery.Claims.{
  attach_mission, attached, is_attachable, with_mission, claim_recovery, claimed, is_pending_row,
  set_recovering, record_attempt, attempted,
}
use ai_hq.Recovery.Consistent.{
  IsConsistent, IsChange, IsStep, same, changes, opens, step-IsConsistent,
}

pub data RecoveryCall : Type 0 where
  observes : ℕ → String → Option Fields → RecoveryCall
  finds_healthy : ℕ → String → Option Fields → RecoveryCall
  diagnoses : ℕ → ℕ → Fields → RecoveryCall
  marks_pending : ℕ → ℕ → RecoveryCall
  attaches : ℕ → ℕ → RecoveryCall
  claims : ℕ → RecoveryCall
  records : ℕ → ℕ → Option ℕ → Bool → String → Option Fields → RecoveryCall
  marks_verifying : ℕ → ℕ → Option Fields → RecoveryCall
  resolves : ℕ → ℕ → Option Fields → RecoveryCall
  escalates : ℕ → ℕ → String → Option Fields → RecoveryCall

module _ (service : RecoveryService) where
  -- The tables after a call.
  unfoldable pub perform : RecoveryCall → RecoveryDb → RecoveryDb
  perform (observes now component fs) db = (observe_failure service now component fs db).1
  perform (finds_healthy now component fs) db = (resolve_if_healthy now component fs db).1
  perform (diagnoses now id fs) db = (update_diagnostics now id fs db).1
  perform (marks_pending now id) db = (mark_recovery_pending now id db).1
  perform (attaches id mission_id) db = (attach_mission id mission_id db).1
  perform (claims id) db = (claim_recovery id db).1
  perform (records now id mission_id simulated outcome result) db =
      (record_attempt now id mission_id simulated outcome result db).1
  perform (marks_verifying now id fs) db = (mark_verifying now id fs db).1
  perform (resolves now id fs) db = (resolve now id fs db).1
  perform (escalates now id reason fs) db = (escalate now id reason fs db).1

  unfoldable pub perform_all : List RecoveryCall → RecoveryDb → RecoveryDb
  unfolding perform
  perform_all [] db = db
  perform_all (c ∷ cs) db = perform_all cs (perform c db)

-- A call that changes no incident.
unchanged : (db : RecoveryDb) → IsStep db db
unchanged db = same refl (λ n h. h)

known_key : (component key : String) → active_key component ≡ ok key → key ≡ key_of component
unfolding active_key
known_key component key h = elim (Option-cases (recovery_component component)) [
  | inl n ↦ cc (rw (active_key, n) at h)
  | inr (c, e) ↦ let g = rw (active_key, e) at h in cc
]

pub held_key :
    (key : String) (i : RecoveryIncident) → i.active_key ≡ some key → has_active_key key i ≡ true
held_key key i h = rw h ((eq_iff key key).1 refl)

module _ (service : RecoveryService) (db : RecoveryDb) (inv : IsConsistent db) where
  observe_failure-IsStep :
      (now : ℕ) (component : String) (fs : Option Fields)
      → IsStep db (observe_failure service now component fs db).1
  unfolding observe_failure incident_with_key
  observe_failure-IsStep now component fs = elim (Result-cases (active_key component)) [
    | inl (x, e) ↦ rw (observe_failure, e) (unchanged db)
    | inr (key, e) ↦ elim (Option-cases (incident_with_key key db)) [
      | inl n ↦
          rw (observe_failure, e, n)
            (opens (first_failure db.next_id now key component (bounded_or end fs)) refl refl refl
              refl (ap some (known_key component key e))
              (λ j m h.
                let no = find-none (has_active_key key) db.incidents j n m in
                cc (no, held_key key j h)))
      | inr (i, g) ↦
          let m = (find-mem (has_active_key key) db.incidents i g).0 in
          elim (Bool-cases (ltb now (i.last_observed_at + service.observation_seconds))) [
            | inl t ↦ rw (observe_failure, e, g, t) (unchanged db)
            | inr t ↦
                rw (observe_failure, e, g, t)
                  (put_incident-IsStep db inv i _ m
                    (failed_again-IsChange service now (bounded_or end fs) i))
          ]
    ]
  ]

  resolve_if_healthy-IsStep :
      (now : ℕ) (component : String) (fs : Option Fields)
      → IsStep db (resolve_if_healthy now component fs db).1
  unfolding resolve_if_healthy incident_with_key
  resolve_if_healthy-IsStep now component fs = elim (Result-cases (active_key component)) [
    | inl (x, e) ↦ rw (resolve_if_healthy, e) (unchanged db)
    | inr (key, e) ↦ elim (Option-cases (incident_with_key key db)) [
      | inl n ↦ rw (resolve_if_healthy, e, n) (unchanged db)
      | inr (i, g) ↦
          let m = (find-mem (has_active_key key) db.incidents i g).0 in
          rw (resolve_if_healthy, e, g)
            (put_incident-IsStep db inv i _ m (healed-IsChange now fs i))
    ]
  ]

  attach_mission-IsStep : (id mission_id : ℕ) → IsStep db (attach_mission id mission_id db).1
  unfolding attach_mission attached
  attach_mission-IsStep id mission_id =
      elim (Bool-cases (row_count (is_attachable id) db.incidents == 1)) [
        | inl t ↦ elim (Option-cases (incident_row id (attached id mission_id db))) [
          | inl n ↦ rw (attach_mission, t, n) attaches_one
          | inr (i, e) ↦ rw (attach_mission, t, e) attaches_one
        ]
        | inr t ↦ elim (Option-cases (incident_row id db)) [
          | inl n ↦ rw (attach_mission, t, n) (unchanged db)
          | inr (i, e) ↦
              elim (Bool-cases (when_some i.recovery_mission_id (λ m. m == mission_id))) [
                | inl u ↦ rw (attach_mission, t, e, u) (unchanged db)
                | inr u ↦ elim (Bool-cases (is_none i.recovery_mission_id)) [
                  | inl v ↦ rw (attach_mission, t, e, u, v) (unchanged db)
                  | inr v ↦ rw (attach_mission, t, e, u, v) (unchanged db)
                ]
              ]
        ]
      ]
    where
      attaches_one : IsStep db (attached id mission_id db)
      attaches_one =
          changes (is_attachable id) (with_mission mission_id) refl (λ n h. h)
            (λ i m t. with_mission-IsChange mission_id i)

  claim_recovery-IsStep : (id : ℕ) → IsStep db (claim_recovery id db).1
  unfolding claim_recovery claimed
  claim_recovery-IsStep id = elim (Bool-cases (row_count (is_pending_row id) db.incidents == 1)) [
    | inl t ↦
        rw (claim_recovery, t)
          (changes (is_pending_row id) set_recovering refl (λ n h. h)
            (λ i m p. set_recovering-IsChange id i p))
    | inr t ↦ rw (claim_recovery, t) (unchanged db)
  ]

  escalate-IsStep :
      (now id : ℕ) (reason : String) (fs : Option Fields)
      → IsStep db (escalate now id reason fs db).1
  unfolding escalate
  escalate-IsStep now id reason fs = elim (Bool-cases (str_eq reason "")) [
    | inl t ↦ rw (escalate, t) (unchanged db)
    | inr t ↦
        rw (escalate, t)
          (change-IsStep db inv id (λ i. ok (given_up now reason fs i))
            (λ i j m h.
              subst (λ x. IsChange i x) (ok_cancel h) (given_up-IsChange now reason fs i)))
  ]

  record_attempt-IsStep :
      (now id : ℕ) (mission_id : Option ℕ) (simulated : Bool) (outcome : String)
      (result : Option Fields)
      → IsStep db (record_attempt now id mission_id simulated outcome result db).1
  unfolding record_attempt incident_row
  record_attempt-IsStep now id mission_id simulated outcome result =
      elim (Bool-cases (str_eq outcome "" || ltb 32 (text_length outcome))) [
        | inl t ↦ rw (record_attempt, t) (unchanged db)
        | inr t ↦ elim (Option-cases (incident_row id db)) [
          | inl n ↦ rw (record_attempt, t, n) (unchanged db)
          | inr (i, e) ↦
              let m = (find-mem (has_incident_id id) db.incidents i e).0 in
              rw (record_attempt, t, e) (stores simulated i m _)
        ]
      ]
    where
      stores :
          (simulated : Bool) (i : RecoveryIncident)
          → Memᴰ i db.incidents
          → (attempts : List RecoveryAttempt)
          → IsStep db (
              attempted simulated now i
                (record db { attempts = attempts; next_id = suc db.next_id }))
      stores true i m attempts = same refl (λ n h. omega arith)
      stores false i m attempts =
          stored-IsStep db inv _ i _ refl (λ n h. omega arith) m (attempted-IsChange now i)

  -- One call, whatever it is.
  pub perform-IsStep : (c : RecoveryCall) → IsStep db (perform service c db)
  unfolding perform update_diagnostics mark_recovery_pending mark_verifying set_active_state resolve
  perform-IsStep (observes now component fs) = observe_failure-IsStep now component fs
  perform-IsStep (finds_healthy now component fs) = resolve_if_healthy-IsStep now component fs
  perform-IsStep (diagnoses now id fs) =
      change-IsStep db inv id (diagnosed now fs) (λ i j m h. diagnosed-IsChange now fs i j h)
  perform-IsStep (marks_pending now id) =
      change-IsStep db inv id (pended now) (λ i j m h. pended-IsChange now i j h)
  perform-IsStep (attaches id mission_id) = attach_mission-IsStep id mission_id
  perform-IsStep (claims id) = claim_recovery-IsStep id
  perform-IsStep (records now id mission_id simulated outcome result) =
      record_attempt-IsStep now id mission_id simulated outcome result
  perform-IsStep (marks_verifying now id fs) =
      change-IsStep db inv id (moved_on now verifying fs)
        (λ i j m h. verified-IsChange now fs i j (inv.keyed i m) h)
  perform-IsStep (resolves now id fs) =
      change-IsStep db inv id (λ i. ok (healed now fs i))
        (λ i j m h. subst (λ x. IsChange i x) (ok_cancel h) (healed-IsChange now fs i))
  perform-IsStep (escalates now id reason fs) = escalate-IsStep now id reason fs

-- Under every sequence of calls from consistent tables, ids stay unique, no two incidents hold the
-- key of one component, and an incident holds its component's key exactly until it is resolved or
-- escalated.
pub perform_all-IsConsistent :
    (service : RecoveryService) (cs : List RecoveryCall) (db : RecoveryDb)
    → IsConsistent db
    → IsConsistent (perform_all service cs db)
unfolding perform_all
perform_all-IsConsistent service [] db inv = inv
perform_all-IsConsistent service (c ∷ cs) db inv =
    perform_all-IsConsistent service cs (perform service c db)
      (step-IsConsistent db (perform service c db) (perform-IsStep service db inv c) inv)
