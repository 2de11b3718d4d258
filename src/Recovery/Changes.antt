-- ===== src/Recovery/Changes.antt =====
-- What the writes of recovery/service.py may do to one incident.
use ai_hq.Prelude.{
  ℕ, ◌<◌, String, true, Option, some, ◌≡◌, refl, ap, subst, inl, inr, arith, Option-cases, Memᴰ,
}
use ai_hq.Prelude.Result.{Result, ok, err}
use ai_hq.Prelude.Rows.{update_where}
use ai_hq.Prelude.Rows.Members.{find-mem}
use ai_hq.Json.{Fields}
use ai_hq.Tables.Recovery.{RecoveryDb, RecoveryIncident, verifying}
use ai_hq.Recovery.Incidents.{
  RecoveryService, has_incident_id, incident_row, put_incident, written, change, diagnosed,
  failed_again, healed, pended, given_up, moved_on,
}
use ai_hq.Recovery.Claims.{with_mission, is_pending_row, set_recovering}
use ai_hq.Recovery.Consistent.{Keyed, IsConsistent, IsChange, IsStep, same, changes}

module _ (db : RecoveryDb) (inv : IsConsistent db) where
  -- The write may follow another one that leaves the incidents alone.
  pub stored-IsStep :
      (db' : RecoveryDb) (i j : RecoveryIncident)
      → db'.incidents ≡ db.incidents
      → ((n : ℕ) → n < db.next_id → n < db'.next_id)
      → Memᴰ i db.incidents
      → IsChange i j
      → IsStep db (put_incident j db')
  unfolding put_incident
  stored-IsStep db' i j e up m c =
      changes (has_incident_id j.id) (λ _. j) (ap (update_where (has_incident_id j.id) (λ _. j)) e)
        up
        (λ x mx t.
          let q : i ≡ x = inv.unique i x m mx (let d = c.same_id in ground (arith, d, t)) in
          subst (λ y. IsChange y j) q c)

  pub put_incident-IsStep :
      (i j : RecoveryIncident) → Memᴰ i db.incidents → IsChange i j → IsStep db (put_incident j db)
  put_incident-IsStep i j m c = stored-IsStep db i j refl (λ n h. h) m c

  pub change-IsStep :
      (id : ℕ) (f : RecoveryIncident → Result RecoveryIncident)
      → ((i j : RecoveryIncident) → Memᴰ i db.incidents → f i ≡ ok j → IsChange i j)
      → IsStep db (change id f db).1
  unfolding incident_row
  change-IsStep id f each = elim (Option-cases (incident_row id db)) [
    | inl n ↦ rw (change, n) (same refl (λ k h. h))
    | inr (i, e) ↦
        rw (change, e) (of_result i (f i) refl (find-mem (has_incident_id id) db.incidents i e).0)
  ]
    where
      of_result :
          (i : RecoveryIncident) (r : Result RecoveryIncident)
          → f i ≡ r
          → Memᴰ i db.incidents
          → IsStep db (written r db).1
      of_result i (err x) h m = same refl (λ k g. g)
      of_result i (ok j) h m = put_incident-IsStep i j m (each i j m h)

-- What each call makes of the incident that it found.
pub diagnosed-IsChange :
    (now : ℕ) (fs : Fields) (i j : RecoveryIncident) → diagnosed now fs i ≡ ok j → IsChange i j
unfolding diagnosed
diagnosed-IsChange now fs i j h = record {
  same_id = ground (arith, h);
  same_component = ground (arith, h);
  key = inl (ground (arith, h));
  keyed = λ k. ground (arith, h, k);
  allowed = ground (arith, h);
}

pub pended-IsChange : (now : ℕ) (i j : RecoveryIncident) → pended now i ≡ ok j → IsChange i j
unfolding pended
pended-IsChange now i j h = record {
  same_id = ground (arith, h);
  same_component = ground (arith, h);
  key = inl (ground (arith, h));
  keyed = λ k. ground (arith, h, k);
  allowed = ground (arith, h);
}

pub verified-IsChange :
    (now : ℕ) (verification : Option Fields) (i j : RecoveryIncident)
    → Keyed i
    → moved_on now verifying verification i ≡ ok j
    → IsChange i j
unfolding moved_on
verified-IsChange now verification i j k h = record {
  same_id = ground (arith, h);
  same_component = ground (arith, h);
  key = inl (ground (arith, h));
  keyed = λ k. ground (arith, h, k);
  allowed = ground (arith, h, k);
}

pub healed-IsChange :
    (now : ℕ) (verification : Option Fields) (i : RecoveryIncident)
    → IsChange i (healed now verification i)
unfolding healed
healed-IsChange now verification i = record {
  same_id = refl;
  same_component = refl;
  key = inr refl;
  keyed = λ k. inr (refl, refl);
  allowed = ground arith;
}

pub given_up-IsChange :
    (now : ℕ) (reason : String) (diagnostics : Option Fields) (i : RecoveryIncident)
    → IsChange i (given_up now reason diagnostics i)
unfolding given_up
given_up-IsChange now reason diagnostics i = record {
  same_id = refl;
  same_component = refl;
  key = inr refl;
  keyed = λ k. inr (refl, refl);
  allowed = ground arith;
}

pub failed_again-IsChange :
    (service : RecoveryService) (now : ℕ) (diagnostics : Fields) (i : RecoveryIncident)
    → IsChange i (failed_again service now diagnostics i)
unfolding failed_again
failed_again-IsChange service now diagnostics i = record {
  same_id = refl;
  same_component = refl;
  key = inl refl;
  keyed = λ k. ground (arith, k);
  allowed = ground arith;
}

pub with_mission-IsChange :
    (mission_id : ℕ) (i : RecoveryIncident) → IsChange i (with_mission mission_id i)
with_mission-IsChange mission_id i = record {
  same_id = refl;
  same_component = refl;
  key = inl refl;
  keyed = λ k. k;
  allowed = ground arith;
}

pub set_recovering-IsChange :
    (id : ℕ) (i : RecoveryIncident) → is_pending_row id i ≡ true → IsChange i (set_recovering i)
set_recovering-IsChange id i t = record {
  same_id = refl;
  same_component = refl;
  key = inl refl;
  keyed = λ k. ground (arith, k, t);
  allowed = ground (arith, t);
}

pub attempted-IsChange :
    (now : ℕ) (i : RecoveryIncident) → IsChange i (record i { last_recovery_attempt_at = some now })
attempted-IsChange now i = record {
  same_id = refl;
  same_component = refl;
  key = inl refl;
  keyed = λ k. k;
  allowed = ground arith;
}
