-- ===== src/Delivery/Releases.antt =====
-- delivery/service.py: what is recorded of an approved change: its publication, its deployment and
-- its rollback.
-- A moment is a number of seconds. All readings of the clock in one call give the same moment.
-- Text arguments are texts, so the `isinstance` tests pass.
use ai_hq.Prelude.{
  ℕ, String, Bool, true, false, not, ◌&&◌, Option, none, some, ◌==◌, leb, if◌then◌else◌, str_eq,
  is_none, when_some,
}
use Prim.Native.String.{◌++◌ as text_append}
use ai_hq.Prelude.Result.{Result, Exec, ok, err, key_error, value_error}
use ai_hq.Prelude.Checks.{◌>>=◌, check, found}
use ai_hq.Json.{Json, get_field, text, obj}
use ai_hq.Tables.{Db}
use ai_hq.Tables.Approvals.{ApprovalRequest, same_approval_state, approved}
use ai_hq.Tables.Deliveries.{Delivery, DeliveryStage, same_stage, passed, failed}
use ai_hq.Approvals.Requests.{request_row}
use ai_hq.Delivery.Identity.{is_git_sha, is_candidate_branch, release_id_valid, is_set, same_text}
use ai_hq.Delivery.Proposals.{put_delivery, handoff, after}

-- `(approval.action_plan or {}).get("change_ref") == change_ref`
unfoldable pub plans_change : Json → String → Bool
unfolding get_field
plans_change (obj fs) change_ref =
    when_some (get_field "change_ref" fs) (λ v. elim v [ text s ↦ str_eq s change_ref | _ ↦ false ])
plans_change _ change_ref = false

-- The checks on the approval that the three records of a release share. `what` is the word of the
-- method in the messages.
unfoldable pub approval_check : String → ℕ → ℕ → String → ℕ → Db → Result ApprovalRequest
unfolding request_row plans_change
approval_check what now mission_id change_ref reference db =
    found (request_row reference db) (key_error "approval request not found") >>= λ approval.
    check (approval.mission_id == mission_id) (text_append "approval mission does not match " what)
      (check (str_eq approval.target change_ref) "approval target does not match change_ref" (
        check (plans_change approval.action_plan change_ref)
          "approval action plan does not match change_ref"
          (check (not (leb approval.expires_at now)) (text_append what " approval expired") (
            check (same_approval_state approval.state approved)
              (text_append what " requires approved human approval") (ok approval)))))

-- The checks on the delivery that they share, and the reference of its approval.
unfoldable pub waiting_check : String → String → Delivery → Result ℕ
waiting_check what change_ref d =
    check (str_eq d.change_ref change_ref)
      (text_append "change_ref does not match " (text_append what " candidate"))
      (check (same_stage d.stage DeliveryStage.waiting_approval)
        (text_append "delivery is not waiting for " (text_append what " approval"))
        (check (when_some d.qa_result (λ r. elim r [ passed ↦ true | failed ↦ false ]))
          (text_append "QA must pass before " what)
          (found d.approval_reference (value_error (text_append what " requires human approval")))))

abbrev pub is_published : Delivery → Bool
is_published d = is_set d.published_branch && is_set d.published_commit && is_set d.published_tree

unfoldable pub publication_check : ℕ → ℕ → String → Db → Result Delivery
unfolding handoff waiting_check approval_check
publication_check now mission_id change_ref db = handoff mission_id db >>= λ rows.
    waiting_check "publication" change_ref rows.1 >>= λ reference.
    approval_check "publication" now mission_id change_ref reference db >>= λ approval. ok rows.1

unfoldable pub published : ℕ → String → String → String → Delivery → Exec Db Delivery
unfolding put_delivery
published now branch commit tree d db =
    let d' : Delivery = record d {
      published_branch = some branch;
      published_commit = some commit;
      published_tree = some tree;
      published_at = some now;
    } in
    if is_none d.published_branch && is_none d.published_commit && is_none d.published_tree
    then (ok d', put_delivery d' db)
    else if same_text d.published_branch (some branch)
        && same_text d.published_commit (some commit)
        && same_text d.published_tree (some tree)
        && not (is_none d.published_at)
    then (ok d, db)
    else (err (value_error "publication identity does not match persisted publication"), db)

unfoldable pub publication_guard : ℕ → ℕ → String → String → String → String → Db → Result Delivery
unfolding is_candidate_branch is_git_sha publication_check
publication_guard now mission_id change_ref branch commit tree db =
    check (is_candidate_branch branch) "publication branch must use generated candidate namespace" (
      check (is_git_sha commit) "publication commit must be a Git SHA" (
        check (is_git_sha tree) "publication tree must be a Git SHA"
          (publication_check now mission_id change_ref db)))

unfoldable pub record_publication : ℕ → ℕ → String → String → String → String → Exec Db Delivery
unfolding publication_guard published
record_publication now mission_id change_ref branch commit tree db =
    after (publication_guard now mission_id change_ref branch commit tree db)
      (published now branch commit tree) db

unfoldable pub deployment_check : ℕ → ℕ → String → Db → Result Delivery
unfolding handoff waiting_check approval_check
deployment_check now mission_id change_ref db = handoff mission_id db >>= λ rows.
    waiting_check "deployment" change_ref rows.1 >>= λ reference.
    check (is_published rows.1) "candidate must be published before deployment"
      (approval_check "deployment" now mission_id change_ref reference db >>= λ approval. ok rows.1)

unfoldable pub deployed : ℕ → String → Option String → Delivery → Exec Db Delivery
unfolding put_delivery
deployed now release_id prior d db =
    let d' : Delivery = record d {
      deployment_release_id = some release_id;
      deployment_prior_release_id = prior;
      deployed_at = some now;
    } in
    if is_none d.deployment_release_id && is_none d.deployment_prior_release_id
    then (ok d', put_delivery d' db)
    else if same_text d.deployment_release_id (some release_id)
        && same_text d.deployment_prior_release_id prior
        && not (is_none d.deployed_at)
    then (ok d, db)
    else (err (value_error "deployment identity does not match persisted deployment"), db)

abbrev pub prior_valid : Option String → Bool
prior_valid none = true
prior_valid (some id) = release_id_valid id

unfoldable pub deployment_guard : ℕ → ℕ → String → String → Option String → Db → Result Delivery
unfolding release_id_valid deployment_check
deployment_guard now mission_id change_ref release_id prior db =
    check (release_id_valid release_id) "release id must use the trusted release identity charset" (
      check (prior_valid prior) "prior release id must use the trusted release identity charset"
        (deployment_check now mission_id change_ref db))

unfoldable pub record_deployment : ℕ → ℕ → String → String → Option String → Exec Db Delivery
unfolding deployment_guard deployed
record_deployment now mission_id change_ref release_id prior db =
    after (deployment_guard now mission_id change_ref release_id prior db)
      (deployed now release_id prior) db

unfoldable pub rollback_check : ℕ → ℕ → String → String → Db → Result Delivery
unfolding handoff waiting_check approval_check
rollback_check now mission_id change_ref release_id db = handoff mission_id db >>= λ rows.
    waiting_check "rollback" change_ref rows.1 >>= λ reference.
    check (is_published rows.1) "candidate must be published before rollback" (
      check (is_set rows.1.deployment_release_id) "candidate must be deployed before rollback" (
        check (is_set rows.1.deployment_prior_release_id)
          "no prior known-good release is recorded for rollback"
          (check (same_text rows.1.deployment_prior_release_id (some release_id))
            "rollback release must resolve from trusted deployment history"
            (approval_check "rollback" now mission_id change_ref reference db >>= λ approval.
              ok rows.1))))

unfoldable pub rolled_back : ℕ → String → Delivery → Exec Db Delivery
unfolding put_delivery
rolled_back now release_id d db =
    let d' : Delivery = record d {
      rollback_release_id = some release_id;
      rolled_back_at = some now;
    } in
    if is_none d.rollback_release_id && is_none d.rolled_back_at
    then (ok d', put_delivery d' db)
    else if same_text d.rollback_release_id (some release_id) && not (is_none d.rolled_back_at)
    then (ok d, db)
    else (err (value_error "rollback identity does not match persisted rollback"), db)

unfoldable pub rollback_guard : ℕ → ℕ → String → String → Db → Result Delivery
unfolding release_id_valid rollback_check
rollback_guard now mission_id change_ref release_id db =
    check (release_id_valid release_id) "release id must use the trusted release identity charset"
      (rollback_check now mission_id change_ref release_id db)

unfoldable pub record_rollback : ℕ → ℕ → String → String → Exec Db Delivery
unfolding rollback_guard rolled_back
record_rollback now mission_id change_ref release_id db =
    after (rollback_guard now mission_id change_ref release_id db) (rolled_back now release_id) db
