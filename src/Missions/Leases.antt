-- ===== src/Missions/Leases.antt =====
-- missions/service.py: the leases under which workers hold code-change missions.
-- A worker id is what `strip` leaves of the given text; a moment is a number of seconds.
use ai_hq.Prelude.{
  ℕ, ◌+◌, String, Bool, true, false, ◌&&◌, ◌||◌, Option, none, some, List, [], ◌∷◌, ◌==◌, ltb, leb,
  if◌then◌else◌, take, str_eq, map, when_some,
}
use ai_hq.Prelude.Result.{Exec, ok, err, value_error, runtime_error}
use ai_hq.Prelude.Rows.{where_rows, update_where, row_count, order_by}
use ai_hq.Tables.{Db}
use ai_hq.Tables.Missions.{Mission, MissionStatus, same_status}
use ai_hq.Missions.Lifecycle.{has_id, mission_row, created_before}

abbrev pub is_code_change : Mission → Bool
is_code_change m = str_eq m.source "hq_chat_code_change" && str_eq m.owner_agent "developer"

-- `claimable`: a queued mission, or a running one whose lease has run out.
abbrev pub is_claimable : ℕ → Mission → Bool
is_claimable now m =
    same_status m.status MissionStatus.queued
    || (same_status m.status MissionStatus.running && when_some m.lease_expires_at (λ e. ltb e now))

abbrev pub may_claim : ℕ → ℕ → Mission → Bool
may_claim now mission_id m = has_id mission_id m && is_code_change m && is_claimable now m

unfoldable pub with_lease : String → ℕ → Mission → Mission
with_lease worker_id expires_at m = record m {
  status = MissionStatus.running;
  lease_owner = some worker_id;
  lease_expires_at = some expires_at;
  attempt_count = m.attempt_count + 1;
}

-- The conditional update of one candidate; `none` is a rollback.
unfoldable pub claim_mission : ℕ → String → ℕ → ℕ → Db → Option Db
unfolding update_where row_count with_lease
claim_mission now worker_id expires_at mission_id db =
    if row_count (may_claim now mission_id) db.missions == 1
    then some (record db {
      missions =
          update_where (may_claim now mission_id) (with_lease worker_id expires_at) db.missions;
    })
    else none

-- The loop over the candidates.
unfoldable pub claim_first : ℕ → String → ℕ → List ℕ → Exec Db (Option Mission)
unfolding claim_mission mission_row
claim_first now worker_id expires_at [] db = (ok none, db)
claim_first now worker_id expires_at (mission_id ∷ rest) db =
    elim (claim_mission now worker_id expires_at mission_id db) [
      | none ↦ claim_first now worker_id expires_at rest db
      | some db' ↦ elim (mission_row mission_id db') [
        | none ↦ (err (runtime_error "claimed mission disappeared"), db')
        | some mission ↦ (ok (some mission), db')
      ]
    ]

-- At most eight candidates, the oldest first.
unfoldable pub candidate_ids : ℕ → Db → List ℕ
unfolding order_by where_rows
candidate_ids now db =
    map (λ m. m.id)
      (take 8 (
        order_by created_before
          (where_rows (λ m. is_code_change m && is_claimable now m) db.missions)))

unfoldable pub claim_oldest_code_change : ℕ → String → ℕ → Exec Db (Option Mission)
unfolding claim_first candidate_ids
claim_oldest_code_change now worker_id lease_seconds db =
    if str_eq worker_id ""
    then (err (value_error "code-change worker id is required"), db)
    else if ltb lease_seconds 60
    then (err (value_error "code-change lease must be at least 60 seconds"), db)
    else claim_first now worker_id (now + lease_seconds) (candidate_ids now db) db

-- The `WHERE` of the renewal: the caller's own lease, which has not run out.
abbrev pub may_renew : ℕ → ℕ → String → Mission → Bool
may_renew now mission_id worker_id m =
    has_id mission_id m
    && is_code_change m
    && same_status m.status MissionStatus.running
    && when_some m.lease_owner (λ w. str_eq w worker_id)
    && when_some m.lease_expires_at (λ e. leb now e)

abbrev pub extend_lease : ℕ → Mission → Mission
extend_lease expires_at m = record m { lease_expires_at = some expires_at }

unfoldable pub renew_code_change_lease : ℕ → ℕ → String → ℕ → Exec Db Bool
unfolding update_where row_count
renew_code_change_lease now mission_id worker_id lease_seconds db =
    if ltb lease_seconds 60
    then (err (value_error "code-change lease must be at least 60 seconds"), db)
    else if row_count (may_renew now mission_id worker_id) db.missions == 1
    then (
      ok true,
      record db {
        missions =
            update_where (may_renew now mission_id worker_id) (extend_lease (now + lease_seconds))
              db.missions;
      },
    )
    else (ok false, db)

abbrev pub may_release : ℕ → String → Mission → Bool
may_release mission_id worker_id m =
    has_id mission_id m && when_some m.lease_owner (λ w. str_eq w worker_id)

abbrev pub drop_lease : Mission → Mission
drop_lease m = record m { lease_owner = none; lease_expires_at = none }

unfoldable pub release_code_change_lease : ℕ → String → Exec Db Bool
unfolding update_where row_count
release_code_change_lease mission_id worker_id db =
    if row_count (may_release mission_id worker_id) db.missions == 1
    then (
      ok true,
      record db {
        missions = update_where (may_release mission_id worker_id) drop_lease db.missions;
      },
    )
    else (ok false, db)
