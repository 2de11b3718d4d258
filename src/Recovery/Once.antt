-- ===== src/Recovery/Once.antt =====
-- recovery/service.py: the claims of one incident.
use ai_hq.Prelude.{
  ℕ, ◌<◌, ◌+◌, ◌≤◌, true, false, ◌&&◌, List, [], ◌∷◌, ◌==◌, ◌≡◌, refl, sym, ap, subst, ◌∙◌, ◌⊎◌,
  inl, inr, arith, Bool-cases, if◌then◌else◌,
}
use ai_hq.Prelude.Rows.{row_count}
use ai_hq.Prelude.Rows.Members.{mem-update_where}
use ai_hq.Prelude.Rows.Counts.{row_count_none, row_count-mem}
use ai_hq.Tables.Recovery.{RecoveryDb, RecoveryIncident}
use ai_hq.Recovery.Incidents.{RecoveryService}
use ai_hq.Recovery.Claims.{claim_recovery, claimed, is_pending_row, set_recovering}
use ai_hq.Recovery.Consistent.{IsConsistent, IsStep, same, changes, opens, step-IsConsistent}
use ai_hq.Recovery.Calls.{
  RecoveryCall, observes, finds_healthy, diagnoses, marks_pending, attaches, claims, records,
  marks_verifying, resolves, escalates, perform, perform-IsStep,
}
use ai_hq.Recovery.Progress.{HasBegun, step-HasBegun}

module _ (id : ℕ) (db : RecoveryDb) where
  claim_fails : HasBegun id db → (claim_recovery id db).0 ≡ false
  unfolding claim_recovery HasBegun
  claim_fails all =
      let zero_rows = row_count_none (is_pending_row id) db.incidents (λ i m.
        (elim (Bool-cases (is_pending_row id i)) [
          | inr t ↦ t
          | inl t ↦
              let at_id : i.id ≡ id = ground (arith, t) in
              let begun = all i m at_id in ground (arith, t, begun)
        ])) in
      rw zero_rows refl

  claim_begins :
      IsConsistent db
      → (claim_recovery id db).0 ≡ true
      → HasBegun id (claim_recovery id db).1 × (id < db.next_id)
  unfolding claim_recovery claimed HasBegun
  claim_begins inv h = elim (Bool-cases (row_count (is_pending_row id) db.incidents == 1)) [
    | inr t ↦ cc (rw (claim_recovery, t) at h)
    | inl t ↦
        let (y, my, py) = row_count-mem (is_pending_row id) db.incidents (ground (arith, t)) in
        let yd : y.id ≡ id = ground (arith, py) in
        (
          rw (claim_recovery, t)
              (λ j m q.
                let (x, mx, ej) =
                  mem-update_where (is_pending_row id) set_recovering db.incidents j m in
                elim (Bool-cases (is_pending_row id x)) [
                  | inl u ↦
                      let claimed_row : j ≡ set_recovering x = ej ∙ (rw u refl) in
                      rw claimed_row refl
                  | inr u ↦
                      let same : j ≡ x = ej ∙ (rw u refl) in
                      let e =
                        inv.unique y x my mx
                          (yd ∙ sym q ∙ ap (λ (z : RecoveryIncident). z.id) same) in
                      cc (py, u, e)
                ]),
          rw (sym yd) (inv.fresh y my),
        )
  ]

-- Whether a call claimed the recovery of the incident.
unfoldable pub wins : ℕ → RecoveryCall → RecoveryDb → ℕ
wins id (claims k) db = if (k == id) && (claim_recovery k db).0 then 1 else 0
wins id _ db = 0

no_win : (id : ℕ) (c : RecoveryCall) (db : RecoveryDb) → HasBegun id db → wins id c db ≡ 0
unfolding wins
no_win id (claims k) db all = elim (Bool-cases (k == id)) [
  | inr t ↦ rw t refl
  | inl t ↦ let e : k ≡ id = ground (arith, t) in rw (t, e, claim_fails id db all) refl
]
no_win id (observes now component fs) db all = refl
no_win id (finds_healthy now component fs) db all = refl
no_win id (diagnoses now k fs) db all = refl
no_win id (marks_pending now k) db all = refl
no_win id (attaches k mission_id) db all = refl
no_win id (records now k mission_id simulated outcome result) db all = refl
no_win id (marks_verifying now k fs) db all = refl
no_win id (resolves now k fs) db all = refl
no_win id (escalates now k reason fs) db all = refl

step_keeps_old : (db db' : RecoveryDb) → IsStep db db' → (n : ℕ) → n < db.next_id → n < db'.next_id
step_keeps_old db db' (same e up) n h = up n h
step_keeps_old db db' (changes p f e up each) n h = up n h
step_keeps_old db db' (opens x e up new s k apart) n h = omega (arith, up, h)

module _ (service : RecoveryService) where
  -- A call does not claim the incident, or it does and the recovery has begun.
  win_cases :
      (id : ℕ) (c : RecoveryCall) (db : RecoveryDb)
      → IsConsistent db
      → (wins id c db ≡ 0)
        ⊎ ((wins id c db ≡ 1)
            × HasBegun id (perform service c db)
            × (id < (perform service c db).next_id))
  unfolding wins perform
  win_cases id (claims k) db inv = elim (Bool-cases (k == id)) [
    | inr t ↦ inl (rw t refl)
    | inl t ↦ elim (Bool-cases (claim_recovery k db).0) [
      | inr u ↦ inl (rw (t, u) refl)
      | inl u ↦
          let e : k ≡ id = ground (arith, t) in
          let (all, lt) = claim_begins k db inv u in
          inr (
            rw (t, u) refl,
            subst (λ i. HasBegun i (claim_recovery k db).1) e all,
            step_keeps_old db (perform service (claims k) db)
                (perform-IsStep service db inv (claims k)) id (rw (sym e) lt),
          )
    ]
  ]
  win_cases id (observes now component fs) db inv = inl refl
  win_cases id (finds_healthy now component fs) db inv = inl refl
  win_cases id (diagnoses now k fs) db inv = inl refl
  win_cases id (marks_pending now k) db inv = inl refl
  win_cases id (attaches k mission_id) db inv = inl refl
  win_cases id (records now k mission_id simulated outcome result) db inv = inl refl
  win_cases id (marks_verifying now k fs) db inv = inl refl
  win_cases id (resolves now k fs) db inv = inl refl
  win_cases id (escalates now k reason fs) db inv = inl refl

  -- The successful claims of one incident in a sequence of calls.
  unfoldable pub total_wins : ℕ → List RecoveryCall → RecoveryDb → ℕ
  unfolding wins
  total_wins id [] db = 0
  total_wins id (c ∷ cs) db = wins id c db + total_wins id cs (perform service c db)

  no_more_wins :
      (id : ℕ) (cs : List RecoveryCall) (db : RecoveryDb)
      → IsConsistent db
      → id < db.next_id
      → HasBegun id db
      → total_wins id cs db ≡ 0
  unfolding total_wins
  no_more_wins id [] db inv lt all = refl
  no_more_wins id (c ∷ cs) db inv lt all =
      let step = perform-IsStep service db inv c in
      let inv' = step-IsConsistent db (perform service c db) step inv in
      let lt' = step_keeps_old db (perform service c db) step id lt in
      let rest =
        no_more_wins id cs (perform service c db) inv' lt'
          (step-HasBegun db (perform service c db) id step lt all) in
      omega (arith, no_win id c db all, rest)

  -- In every sequence of calls of the recovery service from consistent tables, each call one step,
  -- at most one claim of an incident succeeds.
  pub claimed_once :
      (id : ℕ) (cs : List RecoveryCall) (db : RecoveryDb)
      → IsConsistent db
      → total_wins id cs db ≤ 1
  unfolding total_wins
  claimed_once id [] db inv = omega arith
  claimed_once id (c ∷ cs) db inv =
      let step = perform-IsStep service db inv c in
      let inv' = step-IsConsistent db (perform service c db) step inv in
      let rest = claimed_once id cs (perform service c db) inv' in
      elim (win_cases id c db inv) [
        | inl z ↦ omega (arith, z, rest)
        | inr (one, all, lt) ↦
            let none_left = no_more_wins id cs (perform service c db) inv' lt all in
            omega (arith, one, none_left)
      ]
