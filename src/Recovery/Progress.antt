-- ===== src/Recovery/Progress.antt =====
-- recovery/service.py: the states of one incident under recovery calls.
use ai_hq.Prelude.{
  ℕ, ◌<◌, Bool, true, not, [], ◌∷◌, ◌≡◌, refl, sym, ap, subst, ◌∙◌, inl, inr, arith, Bool-cases,
  Memᴰ,
}
use mathlib.Core.List.Memᴰ
use ai_hq.Prelude.Rows.{update_where}
use ai_hq.Prelude.Rows.Members.{mem-update_where, update_where-mem}
use ai_hq.Tables.Recovery.{RecoveryDb, RecoveryIncident, RecoveryIncidentState}
use ai_hq.Recovery.Incidents.{RecoveryService}
use ai_hq.Recovery.Consistent.{
  allowed_change, IsConsistent, IsStep, same, changes, opens, grown_cases,
}
use ai_hq.Recovery.Calls.{RecoveryCall, perform, perform-IsStep}

-- Whether a recovery of the incident has begun.
abbrev pub has_begun : RecoveryIncidentState → Bool
has_begun state = not (allowed_change state RecoveryIncidentState.recovery_pending)

pub stays : (state : RecoveryIncidentState) → allowed_change state state ≡ true
stays state = ground arith

step_allowed :
    (db db' : RecoveryDb)
    → IsStep db db'
    → (i : RecoveryIncident) → Memᴰ i db.incidents
    → (j : RecoveryIncident) × Memᴰ j db'.incidents
      × (j.id ≡ i.id)
      × (j.component ≡ i.component)
      × (allowed_change i.state j.state ≡ true)
step_allowed db db' (same e up) i m = (i, rw e m, refl, refl, stays i.state)
step_allowed db db' (changes p f e up each) i m = elim (Bool-cases (p i)) [
  | inl t ↦
      let c = each i m t in
      let there : Memᴰ (f i) db'.incidents = rw e (
        subst (λ x. Memᴰ x (update_where p f db.incidents)) (rw t refl)
          (update_where-mem p f db.incidents i m)) in
      (f i, there, c.same_id, c.same_component, c.allowed)
  | inr t ↦
      let there : Memᴰ i db'.incidents = rw e (
        subst (λ x. Memᴰ x (update_where p f db.incidents)) (rw t refl)
          (update_where-mem p f db.incidents i m)) in
      (i, there, refl, refl, stays i.state)
]
step_allowed db db' (opens x e up id s k apart) i m =
    (i, rw e (Memᴰ.append_left (x ∷ []) m), refl, refl, stays i.state)

-- A call takes an incident to a state that the table of changes allows, and loses none.
pub perform_allowed :
    (service : RecoveryService) (c : RecoveryCall) (db : RecoveryDb)
    → IsConsistent db
    → (i : RecoveryIncident) → Memᴰ i db.incidents
    → (j : RecoveryIncident) × Memᴰ j (perform service c db).incidents
      × (j.id ≡ i.id)
      × (j.component ≡ i.component)
      × (allowed_change i.state j.state ≡ true)
perform_allowed service c db inv i m =
    step_allowed db (perform service c db) (perform-IsStep service db inv c) i m

-- Every row of the incident is past its claim.
unfoldable pub HasBegun : ℕ → RecoveryDb → Type 0
HasBegun id db = (i : RecoveryIncident) → Memᴰ i db.incidents → i.id ≡ id → has_begun i.state ≡ true

begun_kept :
    (s t : RecoveryIncidentState)
    → has_begun s ≡ true
    → allowed_change s t ≡ true
    → has_begun t ≡ true
begun_kept s t h k = ground (arith, h, k)

pub step-HasBegun :
    (db db' : RecoveryDb) (id : ℕ)
    → IsStep db db'
    → id < db.next_id
    → HasBegun id db
    → HasBegun id db'
unfolding HasBegun
step-HasBegun db db' id (same e up) lt all j m q = all j (rw e at m) q
step-HasBegun db db' id (changes p f e up each) lt all j m q =
    let (i, mi, ej) = mem-update_where p f db.incidents j (rw e at m) in
    elim (Bool-cases (p i)) [
      | inl t ↦
          let same : j ≡ f i = ej ∙ (rw t refl) in
          let c = each i mi t in
          let from : i.id ≡ id =
            sym c.same_id ∙ sym (ap (λ (x : RecoveryIncident). x.id) same) ∙ q in
          rw same (begun_kept i.state (f i).state (all i mi from) c.allowed)
      | inr t ↦
          let same : j ≡ i = ej ∙ (rw t refl) in
          rw same (all i mi (sym (ap (λ (x : RecoveryIncident). x.id) same) ∙ q))
    ]
step-HasBegun db db' id (opens x e up new s k apart) lt all j m q =
    elim (grown_cases db db' x e j m) [
      | inl o ↦ all j o q
      | inr r ↦
          let jd = ap (λ (y : RecoveryIncident). y.id) r in absurd (omega (arith, jd, new, q, lt))
    ]
