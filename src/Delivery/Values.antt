-- ===== src/Delivery/Values.antt =====
-- delivery/repository_workspace.py: the checks that the values of a workspace make of themselves.
-- `is_base16 s` says whether Python's `int(s, 16)` takes the text, and `lower` is `str.lower`.
use ai_hq.Prelude.{String, Bool, not, ◌&&◌, ltb, ◌==◌, any, map, str_eq}
use ai_hq.Prelude.Result.{Result, ok}
use ai_hq.Prelude.Checks.{◌>>=◌, check}
use ai_hq.Recovery.Bounded.{text_length}
use ai_hq.Delivery.Identity.{is_blank, strip, starts_with, cut_left}
use ai_hq.Delivery.Workspace.{RepositoryWorkspace, CandidateSnapshot, TestEvidence}

-- `_required`
unfoldable pub required : String → Result String
unfolding is_blank strip
required value = check (not (is_blank value)) "value is required" (ok (strip value))

module _ (is_base16 : String → Bool) (lower : String → String) where
  abbrev digest_of : String → Bool
  digest_of value =
      starts_with "sha256:" value
      && (text_length (cut_left 7 value) == 64)
      && is_base16 (cut_left 7 value)

  -- `_sha256_digest`
  unfoldable pub sha256_digest : String → Result String
  unfolding required starts_with text_length cut_left
  sha256_digest raw =
      required raw >>= λ value. check (digest_of value) "value must be a sha256 digest" (ok value)

  -- `_git_commit`
  unfoldable pub git_commit : String → Result String
  unfolding required text_length
  git_commit raw = required raw >>= λ value.
      check (text_length value == 40 && str_eq value (lower value) && is_base16 value)
        "value must be a 40-character lowercase Git commit" (ok value)

  -- `RepositoryWorkspace.__post_init__`; an id is a filled text.
  unfoldable pub repository_workspace : RepositoryWorkspace → Result RepositoryWorkspace
  unfolding required git_commit
  repository_workspace w = required w.repository >>= λ repository.
      required w.base_ref >>= λ base_ref. required w.workspace_id >>= λ workspace_id.
      git_commit w.base_commit >>= λ base_commit. ok (record {
        mission_id = w.mission_id;
        repository = repository;
        base_ref = base_ref;
        workspace_id = workspace_id;
        base_commit = base_commit;
      })

  -- `CandidateSnapshot.__post_init__`
  unfoldable pub candidate_snapshot : CandidateSnapshot → Result CandidateSnapshot
  unfolding required git_commit sha256_digest is_blank strip
  candidate_snapshot s = required s.workspace_id >>= λ workspace_id.
      required s.repository >>= λ repository. required s.base_ref >>= λ base_ref.
      git_commit s.base_commit >>= λ base_commit.
      check (not (any is_blank s.changed_files)) "changed_files must contain non-empty strings" (
        sha256_digest s.diff_digest >>= λ diff_digest.
        sha256_digest s.content_digest >>= λ content_digest. ok (record {
          workspace_id = workspace_id;
          repository = repository;
          base_ref = base_ref;
          changed_files = map strip s.changed_files;
          diff_digest = diff_digest;
          content_digest = content_digest;
          base_commit = base_commit;
        }))

  -- `TestEvidence.__post_init__`
  unfoldable pub test_evidence : TestEvidence → Result TestEvidence
  unfolding required text_length sha256_digest
  test_evidence e = required e.summary >>= λ summary.
      check (not (ltb 4000 (text_length summary))) "summary exceeds maximum length" (
        sha256_digest e.evidence_digest >>= λ evidence_digest.
        ok (record e { summary = summary; evidence_digest = evidence_digest }))
