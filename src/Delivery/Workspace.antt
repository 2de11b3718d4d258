-- ===== src/Delivery/Workspace.antt =====
-- delivery/repository_workspace.py: what the workspace of a candidate gives. Its service is a
-- protocol, so its answers are parameters. An exit code below zero stands as any number but zero.
use ai_hq.Prelude.{ℕ, String, Bool, Option, none, some, List, [], ◌∷◌}
use ai_hq.Prelude.Result.{Result, ok, err, value_error}
use ai_hq.Json.{Json, Items, Fields, null, text, num, arr, nil, cons, end, field}

pub data FileOperation : Type 0 where
  write delete : FileOperation

pub record FileChange : Type 0 where
  pub path : String
  pub operation : FileOperation
  pub content : Option String

-- `FileChange.__post_init__`, given the content as it was sent.
unfoldable pub file_content : FileOperation → Json → Result (Option String)
file_content write (text s) = ok (some s)
file_content write _ = err (value_error "write content is required")
file_content delete null = ok none
file_content delete _ = err (value_error "delete content must be empty")

pub record RepositoryWorkspace : Type 0 where
  pub mission_id : ℕ
  pub repository : String
  pub base_ref : String
  pub workspace_id : String
  pub base_commit : String

pub record CandidateSnapshot : Type 0 where
  pub workspace_id : String
  pub repository : String
  pub base_ref : String
  pub changed_files : List String
  pub diff_digest : String
  pub content_digest : String
  pub base_commit : String

pub record TestEvidence : Type 0 where
  pub passed : Bool
  pub exit_code : ℕ
  pub summary : String
  pub evidence_digest : String

-- A list of texts as a JSON value.
unfoldable pub text_items : List String → Items
text_items [] = nil
text_items (s ∷ ss) = cons (text s) (text_items ss)

-- The dict that identifies a candidate.
unfoldable pub identity_fields :
    ℕ → String → String → String → String → List String → String → String → Fields
unfolding text_items
identity_fields mission_id repository base_ref base_commit workspace_id files diff content =
    field "mission_id" (num mission_id) (
      field "repository" (text repository) (
        field "base_ref" (text base_ref) (
          field "base_commit" (text base_commit) (
            field "workspace_id" (text workspace_id) (
              field "changed_files" (arr (text_items files))
                (field "diff_digest" (text diff) (field "content_digest" (text content) end)))))))

-- `CandidateSnapshot.identity_payload`
unfoldable pub identity_payload : ℕ → CandidateSnapshot → Fields
unfolding identity_fields
identity_payload mission_id s =
    identity_fields mission_id s.repository s.base_ref s.base_commit s.workspace_id s.changed_files
      s.diff_digest s.content_digest

pub record RepositoryWorkspaceService : Type 0 where
  pub prepare : ℕ → Result RepositoryWorkspace
  pub apply_changes : RepositoryWorkspace → List FileChange → Result CandidateSnapshot
  pub review_diff : RepositoryWorkspace → Result String
  pub run_tests : RepositoryWorkspace → Result TestEvidence
