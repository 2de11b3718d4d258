-- ===== src/Missions/Commands.antt =====
-- missions/service.py: the operations that write missions, and what keeps a property of one row under each.
use ai_hq.Prelude.{
  ℕ, ◌+◌, String, true, false, Option, some, List, [], ◌∷◌, ◌==◌, ltb, ◌≡◌, refl, subst, inl, inr,
  arith, Bool-cases, Option-cases, some_cancel, str_eq,
}
use ai_hq.Prelude.Rows.{row_count}
use ai_hq.Prelude.Rows.Finds.{find-append, updated}
use ai_hq.Json.{Fields}
use ai_hq.Tables.{Db}
use ai_hq.Tables.Missions.{Mission, MissionStatus, same_status}
use ai_hq.Missions.Lifecycle.{
  has_id, mission_row, NewMission, create_mission, record_result, assign_owner, transition,
}
use ai_hq.Missions.Leases.{
  may_claim, with_lease, claim_mission, claim_first, candidate_ids, claim_oldest_code_change,
  may_renew, extend_lease, renew_code_change_lease, may_release, drop_lease,
  release_code_change_lease,
}
use ai_hq.Missions.Moves.{HasRow, HasRow-update, HasRow-put}

-- A call of an operation that writes missions.
pub data Command : Type 0 where
  create : ℕ → NewMission → Command
  set_result : ℕ → Fields → Command
  assign : ℕ → String → Command
  move : ℕ → MissionStatus → Option Fields → Option Fields → Command
  claim : ℕ → String → ℕ → Command
  renew : ℕ → ℕ → String → ℕ → Command
  release : ℕ → String → Command

unfoldable pub perform : Command → Db → Db
perform (create now new) db = (create_mission now new db).1
perform (set_result id result) db = (record_result id result db).1
perform (assign id owner) db = (assign_owner id owner db).1
perform (move id target r e) db = (transition id target r e db).1
perform (claim now worker seconds) db = (claim_oldest_code_change now worker seconds db).1
perform (renew now id worker seconds) db = (renew_code_change_lease now id worker seconds db).1
perform (release id worker) db = (release_code_change_lease id worker db).1

unfoldable pub perform_all : List Command → Db → Db
perform_all [] db = db
perform_all (c ∷ cs) db = perform_all cs (perform c db)

module _ (id : ℕ) (Q : Mission → Type 0) where
  pub record_result-HasRow :
      (mission_id : ℕ) (result : Fields) (db : Db)
      → ((m : Mission) → Q m → Q (record m { result = some result }))
      → HasRow id Q db
      → HasRow id Q (record_result mission_id result db).1
  unfolding record_result
  record_result-HasRow mission_id result db keep h =
      elim (Option-cases (mission_row mission_id db)) [
        | inl n ↦ rw (n, record_result) h
        | inr (m, row) ↦
            rw (row, record_result)
              (HasRow-put id mission_id Q m (record m { result = some result }) db row refl (keep m)
                h)
      ]

  -- Only queued missions change their owner.
  pub assign_owner-HasRow :
      (mission_id : ℕ) (owner : String) (db : Db)
      → ((m : Mission)
          → same_status m.status MissionStatus.queued ≡ true
          → Q m
          → Q (record m { owner_agent = owner }))
      → HasRow id Q db
      → HasRow id Q (assign_owner mission_id owner db).1
  unfolding assign_owner
  assign_owner-HasRow mission_id owner db keep h = elim (Option-cases (mission_row mission_id db)) [
    | inl n ↦ rw (n, assign_owner) h
    | inr (m, row) ↦ elim (Bool-cases (same_status m.status MissionStatus.queued)) [
      | inl t ↦
          rw (row, assign_owner)
            (rw t (
              HasRow-put id mission_id Q m (record m { owner_agent = owner }) db row refl (keep m t)
                h))
      | inr t ↦ rw (row, assign_owner) (rw t h)
    ]
  ]

  pub create_mission-HasRow :
      (now : ℕ) (new : NewMission) (db : Db)
      → HasRow id Q db
      → HasRow id Q (create_mission now new db).1
  unfolding create_mission mission_row
  create_mission-HasRow now new db (m, row, q) = (m, find-append (has_id id) db.missions _ row, q)

  module _ (now : ℕ) (safe : (k : ℕ) (m : Mission) → Q m → may_claim now k m ≡ false) where
    claim_mission-HasRow :
        (worker : String) (expires mission_id : ℕ) (db db' : Db)
        → claim_mission now worker expires mission_id db ≡ some db'
        → HasRow id Q db
        → HasRow id Q db'
    unfolding claim_mission with_lease
    claim_mission-HasRow worker expires mission_id db db' e h =
        elim (Bool-cases (row_count (may_claim now mission_id) db.missions == 1)) [
          | inl t ↦ subst (HasRow id Q) (some_cancel (rw t at e)) (
              HasRow-update id Q (may_claim now mission_id) (with_lease worker expires) db
                (λ x. ground arith) (λ x q. rw (safe mission_id x q) q) h)
          | inr t ↦ cc (rw t at e)
        ]

    claim_first-HasRow :
        (worker : String) (expires : ℕ) (ids : List ℕ) (db : Db)
        → HasRow id Q db
        → HasRow id Q (claim_first now worker expires ids db).1
    unfolding claim_first
    claim_first-HasRow worker expires [] db h = h
    claim_first-HasRow worker expires (i ∷ ids) db h =
        elim (Option-cases (claim_mission now worker expires i db)) [
          | inl n ↦ rw (n, claim_first) (claim_first-HasRow worker expires ids db h)
          | inr (db', e) ↦ elim (Option-cases (mission_row i db')) [
            | inl n ↦ rw (e, claim_first) (rw n (claim_mission-HasRow worker expires i db db' e h))
            | inr (m, row) ↦
                rw (e, claim_first) (rw row (claim_mission-HasRow worker expires i db db' e h))
          ]
        ]

    pub claim-HasRow :
        (worker : String) (seconds : ℕ) (db : Db)
        → HasRow id Q db
        → HasRow id Q (claim_oldest_code_change now worker seconds db).1
    unfolding claim_oldest_code_change
    claim-HasRow worker seconds db h = elim (Bool-cases (str_eq worker "")) [
      | inl t ↦ rw (t, claim_oldest_code_change) h
      | inr t ↦ elim (Bool-cases (ltb seconds 60)) [
        | inl u ↦ rw (t, claim_oldest_code_change) (rw u h)
        | inr u ↦
            rw (t, claim_oldest_code_change)
              (rw u (claim_first-HasRow worker (now + seconds) (candidate_ids now db) db h))
      ]
    ]

  pub renew-HasRow :
      (now mission_id : ℕ) (worker : String) (seconds : ℕ) (db : Db)
      → ((m : Mission)
          → Q m
          → Q (updated (may_renew now mission_id worker) (extend_lease (now + seconds)) m))
      → HasRow id Q db
      → HasRow id Q (renew_code_change_lease now mission_id worker seconds db).1
  unfolding renew_code_change_lease
  renew-HasRow now mission_id worker seconds db keep h =
      let changed =
        HasRow-update id Q (may_renew now mission_id worker) (extend_lease (now + seconds)) db
          (λ x. ground arith) keep h in
      elim (Bool-cases (ltb seconds 60)) [
        | inl u ↦ rw (u, renew_code_change_lease) h
        | inr u ↦ elim (Bool-cases (row_count (may_renew now mission_id worker) db.missions == 1)) [
          | inl t ↦ rw (u, renew_code_change_lease) (rw t changed)
          | inr t ↦ rw (u, renew_code_change_lease) (rw t h)
        ]
      ]

  pub release-HasRow :
      (mission_id : ℕ) (worker : String) (db : Db)
      → ((m : Mission) → Q m → Q (updated (may_release mission_id worker) drop_lease m))
      → HasRow id Q db
      → HasRow id Q (release_code_change_lease mission_id worker db).1
  unfolding release_code_change_lease
  release-HasRow mission_id worker db keep h =
      elim (Bool-cases (row_count (may_release mission_id worker) db.missions == 1)) [
        | inl t ↦
            rw (t, release_code_change_lease)
              (HasRow-update id Q (may_release mission_id worker) drop_lease db (λ x. ground arith)
                keep h)
        | inr t ↦ rw (t, release_code_change_lease) h
      ]
