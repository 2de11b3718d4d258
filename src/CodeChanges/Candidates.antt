-- ===== src/CodeChanges/Candidates.antt =====
-- code_changes/publisher.py, deployer.py, rollbacker.py and candidate_store.py: the values that the
-- code-change service passes between its parts, and the checks that each makes when it is built.
use ai_hq.Prelude.{ℕ, String, Bool, ◌||◌, not, Option, List, str_eq}
use ai_hq.Prelude.Result.{Result, ok}
use ai_hq.Prelude.Checks.{check}
use ai_hq.Delivery.Identity.{is_git_sha, is_sha256, is_blank, strip, starts_with, release_id_valid}
use ai_hq.Delivery.Releases.{prior_valid}

-- `repository in TRUSTED_REPOSITORY_KEYS`
abbrev pub is_trusted : String → Bool
is_trusted repository = str_eq repository "ai-hq" || str_eq repository "dripvid"

-- What the candidate store has reopened and verified again; the path of its workspace is left out.
pub record PersistedCandidate : Type 0 where
  pub mission_id : ℕ
  pub repository : String
  pub workspace_id : String
  pub base_ref : String
  pub base_commit : String
  pub change_ref : String
  pub changed_files : List String
  pub content_digest : String

pub record PublishedCandidate : Type 0 where
  pub repository : String
  pub change_ref : String
  pub branch_name : String
  pub commit_sha : String
  pub tree_sha : String
  pub base_commit : String

-- `PublishedCandidate.__post_init__`
unfoldable pub published_candidate : PublishedCandidate → Result PublishedCandidate
unfolding is_blank strip is_sha256 is_git_sha starts_with
published_candidate c = check (not (is_blank c.repository)) "repository is required" (
    check (not (is_blank c.branch_name)) "branch_name is required" (
      check (is_trusted (strip c.repository)) "unknown published repository" (
        check (is_sha256 c.change_ref) "change_ref must be a sha256 digest" (
          check (is_git_sha c.commit_sha) "commit_sha must be a 40-character Git commit identity" (
            check (is_git_sha c.tree_sha) "tree_sha must be a 40-character Git commit identity" (
              check (is_git_sha c.base_commit)
                "base_commit must be a 40-character Git commit identity"
                (check (starts_with "ai-hq/candidate/" (strip c.branch_name))
                  "published branch must use generated candidate namespace"
                  (ok (record c {
                    repository = strip c.repository;
                    branch_name = strip c.branch_name;
                  })))))))))

pub record DeployedRelease : Type 0 where
  pub repository : String
  pub change_ref : String
  pub release_id : String
  pub prior_release_id : Option String

-- `DeployedRelease.__post_init__`
unfoldable pub deployed_release : DeployedRelease → Result DeployedRelease
unfolding is_sha256 release_id_valid
deployed_release r = check (is_trusted r.repository) "unknown deployed repository" (
    check (is_sha256 r.change_ref) "change_ref must be a sha256 digest" (
      check (release_id_valid r.release_id)
        "release id must use the trusted release identity charset"
        (check (prior_valid r.prior_release_id)
          "prior release id must use the trusted release identity charset" (ok r))))

pub record RollbackTarget : Type 0 where
  pub repository : String
  pub change_ref : String

-- `RollbackTarget.__post_init__`
unfoldable pub rollback_target : RollbackTarget → Result RollbackTarget
unfolding is_sha256
rollback_target t =
    check (is_trusted t.repository) "unknown rollback repository"
      (check (is_sha256 t.change_ref) "change_ref must be a sha256 digest" (ok t))

pub record RolledBackRelease : Type 0 where
  pub repository : String
  pub change_ref : String
  pub release_id : String

-- `RolledBackRelease.__post_init__`
unfoldable pub rolled_back_release : RolledBackRelease → Result RolledBackRelease
unfolding is_sha256 release_id_valid
rolled_back_release r = check (is_trusted r.repository) "unknown rollback repository" (
    check (is_sha256 r.change_ref) "change_ref must be a sha256 digest" (
      check (release_id_valid r.release_id)
        "release id must use the trusted release identity charset" (ok r)))
