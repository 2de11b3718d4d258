-- ===== src/Delivery/Runner.antt =====
-- delivery/agent_runner.py: `DeliveryAgentRunner`. The agents and the workspace are parameters.
use ai_hq.Prelude.{
  ℕ, String, Bool, true, Option, none, some, List, [], ◌∷◌, map, str_eq, if◌then◌else◌,
}
use ai_hq.Prelude.Result.{Result, Exec, ok, err, value_error, type_error, pure, raise}
use ai_hq.Prelude.Result
use ai_hq.Prelude.Checks.{◌>>=◌, check, found}
use ai_hq.Json.{Json, Items, Fields, text, arr, obj, nil, cons, get_field}
use ai_hq.Tables.{Db}
use ai_hq.Tables.Deliveries.{Delivery}
use ai_hq.Delivery.Identity.{strip}
use ai_hq.Delivery.Proposals.{qa_result_of}
use ai_hq.Delivery.Runtime.{handoff_to_developer, handoff_to_qa, is_filled}
use ai_hq.Delivery.Workspace.{
  FileOperation, write, delete, FileChange, file_content, RepositoryWorkspace,
  RepositoryWorkspaceService,
}
use ai_hq.Delivery.Verifier.{Digests, VerifiedCandidate, verify, required_text}

-- `FileOperation(raw)`
unfoldable pub file_operation : Option Json → Option FileOperation
file_operation (some (text s)) =
    if str_eq s "write" then some write else if str_eq s "delete" then some delete else none
file_operation _ = none

unfoldable pub file_change : Json → Result FileChange
unfolding required_text strip file_operation file_content get_field
file_change (obj raw) =
    found (required_text "path" raw) (value_error "developer change requires path") >>= λ path.
    found (file_operation (get_field "operation" raw))
      (value_error "developer change has invalid operation")
    >>= λ operation.
        found (get_field "content" raw) (value_error "developer change requires content")
        >>= λ sent. file_content operation sent >>= λ content.
            ok (record { path = strip path; operation = operation; content = content })
file_change _ = err (value_error "developer change must be an object")

unfoldable pub file_changes : Items → Result (List FileChange)
unfolding file_change
file_changes nil = ok []
file_changes (cons raw rest) =
    file_change raw >>= λ change. file_changes rest >>= λ changes. ok (change ∷ changes)

-- `_candidate_file_changes`
unfoldable pub candidate_file_changes : Fields → Result (List FileChange)
unfolding file_changes get_field
candidate_file_changes candidate = elim (get_field "changes" candidate) [
  | none ↦ err (value_error "developer candidate changes must be a list")
  | some v ↦ (elim v [
    | arr xs ↦ file_changes xs
    | _ ↦ err (value_error "developer candidate changes must be a list")
  ])
]

pub record DeliveryAgents : Type 0 where
  pub develop : ℕ → Result Json
  pub review : Delivery → Result Json

pub record DeliveryAgentRunner : Type 0 where
  pub digests : Digests
  pub request_digest : Json → String
  pub agents : DeliveryAgents
  pub has_verifier : Bool
  pub workspace_service : Option RepositoryWorkspaceService

-- `_prepare_workspace`
unfoldable pub prepare_workspace :
    DeliveryAgentRunner → ℕ → Result (RepositoryWorkspaceService × RepositoryWorkspace)
prepare_workspace runner mission_id =
    found runner.workspace_service (value_error "repository workspace service is required")
    >>= λ service.
        check runner.has_verifier "candidate verifier is required"
          (service.prepare mission_id >>= λ workspace. ok (service, workspace))

-- What `_verify_and_persist` does before it hands the candidate over.
unfoldable pub verified_candidate :
    DeliveryAgentRunner
    → ℕ
    → Json
    → RepositoryWorkspaceService
    → RepositoryWorkspace
    → Result VerifiedCandidate
unfolding required_text candidate_file_changes verify
verified_candidate runner mission_id (obj candidate) service workspace =
    found (required_text "summary" candidate) (value_error "developer candidate requires summary")
    >>= λ summary. candidate_file_changes candidate >>= λ changes.
        service.apply_changes workspace changes >>= λ snapshot.
        service.review_diff workspace >>= λ diff. service.run_tests workspace >>= λ tests.
        verify runner.digests mission_id candidate snapshot tests (some diff)
verified_candidate runner mission_id _ service workspace =
    err (type_error "developer candidate must be a mapping")

unfoldable pub persist_verified : ℕ → Result VerifiedCandidate → Exec Db Bool
unfolding handoff_to_developer
persist_verified mission_id r =
    Result.◌>>=◌ (λ db. (r, db))
      λ verified.
        Result.◌>>=◌
          (handoff_to_developer mission_id verified.change_ref verified.summary
            (map text verified.changed_files) verified.evidence)
          λ d. pure true

unfoldable pub run_developer : DeliveryAgentRunner → ℕ → Exec Db Bool
unfolding prepare_workspace verified_candidate persist_verified
run_developer runner mission_id = persist_verified mission_id (
    prepare_workspace runner mission_id >>= λ x. runner.agents.develop mission_id >>= λ candidate.
    verified_candidate runner mission_id candidate x.0 x.1)

-- A candidate that was made elsewhere.
unfoldable pub persist_candidate : DeliveryAgentRunner → ℕ → Json → Exec Db Bool
unfolding prepare_workspace verified_candidate persist_verified
persist_candidate runner mission_id candidate = persist_verified mission_id (
    prepare_workspace runner mission_id >>= λ x.
    verified_candidate runner mission_id candidate x.0 x.1)

-- The result and the evidence of a review.
unfoldable pub review_of : Json → Result (String × Fields)
unfolding qa_result_of get_field
review_of (obj result) =
    found
      (elim (get_field "result" result) [
        | none ↦ none
        | some v ↦ (elim v [
          | text s ↦ (elim (qa_result_of s) [ none ↦ none | some q ↦ some s ])
          | _ ↦ none
        ])
      ])
      (value_error "QA result must be PASSED or FAILED")
    >>= λ outcome.
        found
          (elim (get_field "evidence" result) [
            | none ↦ none
            | some v ↦ (elim v [ obj fs ↦ if is_filled fs then some fs else none | _ ↦ none ])
          ])
          (value_error "QA result requires evidence")
        >>= λ evidence. ok (outcome, evidence)
review_of _ = err (type_error "QA result must be a mapping")

unfoldable pub run_qa : DeliveryAgentRunner → ℕ → Delivery → Exec Db Bool
unfolding review_of handoff_to_qa
run_qa runner now d =
    Result.◌>>=◌ (λ db. ((runner.agents.review d >>= review_of), db))
      λ x.
        Result.◌>>=◌ (handoff_to_qa runner.request_digest now d.mission_id d.change_ref x.0 x.1)
          λ d'. pure true
