-- ===== src/Missions/Holding.antt =====
-- missions/service.py: a worker's lease, and the calls of others while it runs.
use ai_hq.Prelude.{
  ℕ, ◌≤◌, String, false, Option, some, List, [], ◌∷◌, ◌==◌, ◌≡◌, ◌≢◌, refl, ◌∙◌, inl, inr, arith,
  Bool-cases, Option-cases, str_eq, eq_iff,
}
use ai_hq.Json.{Fields}
use ai_hq.Tables.{Db}
use ai_hq.Tables.Missions.{Mission, MissionStatus}
use ai_hq.Missions.Transitions.{allowed_transition}
use ai_hq.Missions.Lifecycle.{mission_row, transition, moved}
use ai_hq.Missions.Leases.{may_claim, may_renew, may_release}
use ai_hq.Missions.Moves.{
  HasRow, transition_missing, transition_refused, transition_done, mission_row-status_change,
  mission_row-put_copy,
}
use ai_hq.Missions.Commands.{
  Command, create, set_result, assign, move, claim, renew, release, perform, perform_all,
  record_result-HasRow, assign_owner-HasRow, create_mission-HasRow, claim-HasRow, renew-HasRow,
  release-HasRow,
}

-- The worker holds the running mission until the moment `expires`.
pub record IsHeld (worker : String) (expires : ℕ) (m : Mission) : Type 0 where
  pub running : m.status ≡ MissionStatus.running
  pub owner : m.lease_owner ≡ some worker
  pub until : m.lease_expires_at ≡ some expires

-- What others may do while the lease of `worker` on the mission `id` runs: anything but moving
-- that mission, under other names, and with clocks that have not passed the lease's end.
unfoldable pub IsForeign : ℕ → String → ℕ → Command → Type 0
IsForeign id worker expires (create now new) = Unit
IsForeign id worker expires (set_result i result) = Unit
IsForeign id worker expires (assign i owner) = Unit
IsForeign id worker expires (move i target r e) = i ≢ id
IsForeign id worker expires (claim now other seconds) = now ≤ expires
IsForeign id worker expires (renew now i other seconds) = worker ≢ other
IsForeign id worker expires (release i other) = worker ≢ other

unfoldable pub AllForeign : ℕ → String → ℕ → List Command → Type 0
unfolding IsForeign
AllForeign id worker expires [] = Unit
AllForeign id worker expires (c ∷ cs) =
    IsForeign id worker expires c × AllForeign id worker expires cs

module _ (id : ℕ) (worker : String) (expires : ℕ) where
  not_taken :
      (now : ℕ)
      → now ≤ expires
      → (k : ℕ) (m : Mission) → IsHeld worker expires m
      → may_claim now k m ≡ false
  not_taken now le k m h = let s = h.running in let u = h.until in ground (arith, le, s, u)

  other_worker : (other : String) → worker ≢ other → str_eq worker other ≡ false
  other_worker other n = elim (Bool-cases (str_eq worker other)) [
    | inl t ↦ absurd (n ((eq_iff worker other).0 t))
    | inr t ↦ t
  ]

  not_renewed :
      (now k : ℕ) (other : String) (m : Mission)
      → worker ≢ other
      → IsHeld worker expires m
      → may_renew now k other m ≡ false
  not_renewed now k other m n h =
      let o = h.owner in let d = other_worker other n in ground (arith, o, d)

  not_released :
      (k : ℕ) (other : String) (m : Mission)
      → worker ≢ other
      → IsHeld worker expires m
      → may_release k other m ≡ false
  not_released k other m n h =
      let o = h.owner in let d = other_worker other n in ground (arith, o, d)

  transition_other :
      (i : ℕ) (target : MissionStatus) (r e : Option Fields) (db : Db)
      → i ≢ id
      → mission_row id (transition i target r e db).1 ≡ mission_row id db
  unfolding moved
  transition_other i target r e db n = elim (Option-cases (mission_row i db)) [
    | inl h ↦ rw (transition_missing i target r e db h) refl
    | inr (m, row) ↦ elim (Bool-cases (allowed_transition m.status target)) [
      | inr t ↦ rw (transition_refused i target r e db m row t) refl
      | inl t ↦
          let apart : (i == id) ≡ false = ground (arith, n) in
          rw (transition_done i target r e db m row t) (
            mission_row-status_change id target m _
            ∙ mission_row-put_copy id i m (moved target r e m) db row refl
            ∙ (rw apart refl))
    ]
  ]

  perform_foreign :
      (c : Command) (db : Db)
      → IsForeign id worker expires c
      → HasRow id (IsHeld worker expires) db
      → HasRow id (IsHeld worker expires) (perform c db)
  unfolding perform IsForeign
  perform_foreign (create now new) db n h = create_mission-HasRow id _ now new db h
  perform_foreign (set_result i result) db n h =
      record_result-HasRow id (IsHeld worker expires) i result db
        (λ m q. record { running = q.running; owner = q.owner; until = q.until }) h
  perform_foreign (assign i owner) db n h =
      assign_owner-HasRow id (IsHeld worker expires) i owner db
        (λ m t q. record { running = q.running; owner = q.owner; until = q.until }) h
  perform_foreign (move i target r e) db n (m, row, q) =
      (m, transition_other i target r e db n ∙ row, q)
  perform_foreign (claim now other seconds) db n h =
      claim-HasRow id (IsHeld worker expires) now (not_taken now n) other seconds db h
  perform_foreign (renew now i other seconds) db n h =
      renew-HasRow id (IsHeld worker expires) now i other seconds db
        (λ m q. rw (not_renewed now i other m n q) q) h
  perform_foreign (release i other) db n h =
      release-HasRow id (IsHeld worker expires) i other db
        (λ m q. rw (not_released i other m n q) q) h

  -- A worker that holds the lease of a running mission still holds it, with the same end, after
  -- any sequence of calls of others: claims at moments up to the lease's end, renewals and releases
  -- under other names, moves of other missions, and changes of results and owners.
  pub lease_exclusive :
      (cs : List Command) (db : Db)
      → AllForeign id worker expires cs
      → HasRow id (IsHeld worker expires) db
      → HasRow id (IsHeld worker expires) (perform_all cs db)
  unfolding perform_all AllForeign
  lease_exclusive [] db n h = h
  lease_exclusive (c ∷ cs) db (n, ns) h =
      lease_exclusive cs (perform c db) ns (perform_foreign c db n h)
