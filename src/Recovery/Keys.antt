-- ===== src/Recovery/Keys.antt =====
-- recovery/service.py: who holds the key of a component after an incident was written.
use ai_hq.Prelude.{
  ℕ, String, true, Option, none, some, ◌≡◌, refl, ap, subst, ◌∙◌, inl, inr, arith, Bool-cases,
  Option-cases, Memᴰ, when_some, str_eq, eq_iff,
}
use ai_hq.Prelude.Result.{ok}
use ai_hq.Prelude.Rows.{update_where}
use ai_hq.Prelude.Rows.Members.{find-mem, mem-update_where, update_where-mem}
use ai_hq.Json.{Fields}
use ai_hq.Tables.Recovery.{RecoveryDb, RecoveryIncident}
use ai_hq.Recovery.Incidents.{
  active_key, incident_with_key, has_active_key, has_incident_id, put_incident, resolve_if_healthy,
  healed,
}
use ai_hq.Recovery.Consistent.{IsConsistent}
use ai_hq.Recovery.Calls.{held_key}
use ai_hq.Prelude.Rows.Counts.{find-only}

key_held :
    (key : String) (i : RecoveryIncident) → has_active_key key i ≡ true → i.active_key ≡ some key
key_held key i h = of_key i.active_key refl h
  where
    of_key :
        (o : Option String)
        → i.active_key ≡ o
        → when_some o (λ k. str_eq k key) ≡ true
        → i.active_key ≡ some key
    of_key none e g = cc g
    of_key (some k) e g = e ∙ ap some ((eq_iff k key).0 g)

module _ (db : RecoveryDb) (inv : IsConsistent db) (key : String) (i j : RecoveryIncident)
    (found : incident_with_key key db ≡ some i) (same_id : j.id ≡ i.id) where
  -- Who holds the key after the incident that held it was written.
  holder_after :
      (y : RecoveryIncident)
      → Memᴰ y (put_incident j db).incidents
      → has_active_key key y ≡ true
      → y ≡ j
  unfolding put_incident incident_with_key
  holder_after y m t =
      let (mi, ti) = find-mem (has_active_key key) db.incidents i found in
      let (x, mx, e) = mem-update_where (has_incident_id j.id) (λ _. j) db.incidents y m in
      elim (Bool-cases (has_incident_id j.id x)) [
        | inl u ↦ e ∙ (rw u refl)
        | inr u ↦
            let kept : y ≡ x = e ∙ (rw u refl) in
            let holds : has_active_key key x ≡ true = rw kept at t in
            let q = inv.exclusive x i key mx mi (key_held key x holds) (key_held key i ti) in
            let d = ap (λ (z : RecoveryIncident). z.id) q in absurd (ground (arith, d, u, same_id))
      ]

  key_dropped : j.active_key ≡ none → incident_with_key key (put_incident j db) ≡ none
  unfolding incident_with_key
  key_dropped n = elim (Option-cases (incident_with_key key (put_incident j db))) [
    | inl e ↦ e
    | inr (y, e) ↦
        let (m, t) = find-mem (has_active_key key) (put_incident j db).incidents y e in
        let held = key_held key j (rw (holder_after y m t) at t) in cc (held, n)
  ]

  pub key_kept : j.active_key ≡ i.active_key → incident_with_key key (put_incident j db) ≡ some j
  unfolding put_incident incident_with_key
  key_kept k =
      let (mi, ti) = find-mem (has_active_key key) db.incidents i found in
      let at_id : has_incident_id j.id i ≡ true = ground (arith, same_id) in
      let there : Memᴰ j (put_incident j db).incidents =
        subst (λ x. Memᴰ x (update_where (has_incident_id j.id) (λ _. j) db.incidents))
          (rw at_id refl) (update_where-mem (has_incident_id j.id) (λ _. j) db.incidents i mi) in
      find-only (has_active_key key) (put_incident j db).incidents j there
        (held_key key j (k ∙ key_held key i ti)) holder_after

-- After a component was found healthy it has no open incident.
pub resolve_if_healthy_closes :
    (now : ℕ) (component key : String) (fs : Option Fields) (db : RecoveryDb)
    → IsConsistent db
    → active_key component ≡ ok key
    → incident_with_key key (resolve_if_healthy now component fs db).1 ≡ none
unfolding resolve_if_healthy healed
resolve_if_healthy_closes now component key fs db inv known =
    elim (Option-cases (incident_with_key key db)) [
      | inl n ↦ rw (resolve_if_healthy, known, n) n
      | inr (i, e) ↦
          rw (resolve_if_healthy, known, e) (key_dropped db inv key i (healed now fs i) e refl refl)
    ]
