-- ===== src/Approvals/Requests.antt =====
-- approvals/service.py: fingerprints, and the requests that ask a person for approval.
-- `digest` stands for the SHA-256 hex digest of the canonical JSON text of a value, from Python's
-- hashlib and json.
use ai_hq.Prelude.{
  true, List, ℕ, suc, String, Bool, ◌&&◌, Option, none, some, [], ◌∷◌, ◌++◌, ◌==◌, ltb,
  if◌then◌else◌, str_eq, any,
}
use ai_hq.Prelude.Result.{Exec, ok, err, key_error, value_error}
use ai_hq.Prelude.Rows.{find, where_rows, update_where}
use ai_hq.Json.{Json, text, obj, field, end}
use ai_hq.Tables.{Db}
use ai_hq.Tables.Missions.{MissionRisk}
use ai_hq.Tables.Approvals.{ApprovalRequest, ApprovalState, same_approval_state, pending, approved}

-- The keys stand sorted, as `sort_keys` puts them.
unfoldable pub canonical_action_fingerprint : (Json → String) → String → String → Json → String
canonical_action_fingerprint digest action target action_plan = digest (
    obj (
      field "action" (text action)
        (field "action_plan" action_plan (field "target" (text target) end))))

pub record NewRequest : Type 0 where
  pub mission_id : ℕ
  pub requester_agent : String
  pub action : String
  pub target : String
  pub risk : MissionRisk
  pub action_plan : Json
  pub expires_at : ℕ

unfoldable pub request_from : (Json → String) → ℕ → NewRequest → ApprovalRequest
unfolding canonical_action_fingerprint
request_from digest id n = record {
  id = id;
  mission_id = n.mission_id;
  requester_agent = n.requester_agent;
  action = n.action;
  target = n.target;
  risk = n.risk;
  action_plan = n.action_plan;
  action_fingerprint = canonical_action_fingerprint digest n.action n.target n.action_plan;
  state = pending;
  expires_at = n.expires_at;
  decided_at = none;
}

unfoldable pub create_request : (Json → String) → NewRequest → Db → ApprovalRequest × Db
unfolding request_from
create_request digest new db =
    let request : ApprovalRequest = request_from digest db.next_id new in
    (request, record db { requests = db.requests ++ request ∷ []; next_id = suc db.next_id })

abbrev pub has_request_id : ℕ → ApprovalRequest → Bool
has_request_id id r = r.id == id

unfoldable pub request_row : ℕ → Db → Option ApprovalRequest
unfolding find
request_row id db = find (has_request_id id) db.requests

abbrev is_of_mission : Option ℕ → ApprovalRequest → Bool
is_of_mission none r = true
is_of_mission (some mission_id) r = r.mission_id == mission_id

-- Rows are created in the order of insertion.
unfoldable pub list_requests : Option ℕ → Db → List ApprovalRequest
unfolding where_rows
list_requests mission_id db = where_rows (is_of_mission mission_id) db.requests

unfoldable pub get_request : ℕ → Exec Db ApprovalRequest
unfolding request_row
get_request id db = elim (request_row id db) [
  | none ↦ (err (key_error "approval request not found"), db)
  | some r ↦ (ok r, db)
]

-- A request for this action of this mission, in a state.
abbrev pub is_for : ℕ → String → ApprovalState → ApprovalRequest → Bool
is_for mission_id fingerprint state r =
    r.mission_id == mission_id
    && str_eq r.action_fingerprint fingerprint
    && same_approval_state r.state state

-- `_utc(request.expires_at) > now`
abbrev pub is_live : ℕ → ApprovalRequest → Bool
is_live now r = ltb now r.expires_at

unfoldable pub pending_for_fingerprint : ℕ → ℕ → String → Db → Option ApprovalRequest
unfolding find where_rows
pending_for_fingerprint now mission_id fingerprint db =
    find (is_live now) (where_rows (is_for mission_id fingerprint pending) db.requests)

unfoldable pub is_approved : ℕ → ℕ → String → Db → Bool
unfolding where_rows
is_approved now mission_id fingerprint db =
    any (is_live now) (where_rows (is_for mission_id fingerprint approved) db.requests)

unfoldable pub decided : ℕ → ApprovalState → ApprovalRequest → ApprovalRequest
decided now state r = record r { state = state; decided_at = some now }

unfoldable pub decide : ℕ → ℕ → ApprovalState → Exec Db ApprovalRequest
unfolding request_row update_where decided
decide now request_id state db =
    if same_approval_state state pending
    then (err (value_error "approval decision cannot return to pending"), db)
    else elim (request_row request_id db) [
      | none ↦ (err (key_error "approval request not found"), db)
      | some request ↦
          if same_approval_state request.state pending
          then (
            ok (decided now state request),
            record db {
              requests =
                  update_where (has_request_id request_id) (λ _. decided now state request)
                    db.requests;
            },
          )
          else (err (value_error "approval request already decided"), db)
    ]
