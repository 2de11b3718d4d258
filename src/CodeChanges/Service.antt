-- ===== src/CodeChanges/Service.antt =====
-- code_changes/service.py: `CodeChangeService`, what its operations share, and `candidate_result`.
-- What the candidate store, the publisher, the deployer and the rollbacker answer are parameters,
-- since they read files, call GitHub and operate hosts; their answers may depend on all that was
-- done before. `elsewhere` is what other processes do to the tables while one of them works.
use ai_hq.Prelude.{
  ℕ, String, Bool, true, false, not, ◌&&◌, ◌||◌, Option, none, some, List, [], ◌∷◌, ◌++◌, str_eq,
  is_none, any,
}
use Prim.Native.String.{◌++◌ as text_append}
use ai_hq.Prelude.Result.{Result, Exec, ok, value_error, key_error, pure, raise, ◌>>=◌}
use ai_hq.Prelude.Checks.{check, found}
use ai_hq.Prelude.Checks
use ai_hq.Json.{Json, Fields, text, end}
use ai_hq.Tables.{Db}
use ai_hq.Tables.Missions.{Mission}
use ai_hq.Tables.Deliveries.{Delivery, DeliveryStage, QaResult, same_stage, passed, failed}
use ai_hq.Missions.Lifecycle.{mission_row}
use ai_hq.Delivery.Identity.{strip, starts_with}
use ai_hq.Delivery.Proposals.{delivery_row, get_delivery, after}
use ai_hq.Delivery.Decisions.{apply_human_decision, same_reference}
use ai_hq.CodeChanges.Candidates.{
  is_trusted, PersistedCandidate, PublishedCandidate, DeployedRelease, RollbackTarget,
  RolledBackRelease,
}

-- What the service has had done outside, oldest first.
pub data Effect : Type 0 where
  publication : PersistedCandidate → Effect
  deployment : PublishedCandidate → Effect
  rollback : RollbackTarget → String → Effect

pub record World : Type 0 where
  pub tables : Db
  pub effects : List Effect

pub record CodeChangeService : Type 0 where
  pub candidate_store :
      Option (List Effect → ℕ → String → List Json → Fields → Result PersistedCandidate)
  pub publisher : Option (List Effect → PersistedCandidate → Result PublishedCandidate)
  pub deployer : Option (List Effect → PublishedCandidate → Result DeployedRelease)
  pub rollbacker : Option (List Effect → RollbackTarget → String → Result RolledBackRelease)
  pub repository_description : String → String
  pub elsewhere : Db → Db

pub record CodeChangeResult : Type 0 where
  pub mission_id : ℕ
  pub repository : String
  pub summary : String
  pub change_ref : String
  pub changed_files : List Json
  pub developer_evidence : Fields
  pub qa_result : Option QaResult
  pub qa_evidence : Fields
  pub approval_reference : Option ℕ
  pub ready_for_approval : Bool
  pub high_risk : Bool
  pub repository_description : String
  pub published : Bool
  pub deployed : Bool
  pub deployment_release_id : Option String
  pub deployment_prior_release_id : Option String
  pub rolled_back : Bool
  pub rollback_release_id : Option String

-- `_trusted_repository`
unfoldable pub trusted_repository : String → Result String
unfolding strip
trusted_repository repository =
    check (is_trusted (strip repository))
      "code change requires a trusted repository: ai-hq or dripvid" (ok (strip repository))

-- `_instruction`
unfoldable pub required_instruction : String → Result String
unfolding strip
required_instruction instruction =
    check (not (str_eq (strip instruction) "")) "code change instruction is required"
      (ok (strip instruction))

unfoldable pub high_risk_prefixes : List String
high_risk_prefixes =
    "src/ai_hq/auth/" ∷ "src/ai_hq/approvals/" ∷ "src/ai_hq/tool_gateway/"
    ∷ "src/ai_hq/host_helper/" ∷ "deploy/" ∷ []

unfoldable pub high_risk_files : List String
high_risk_files =
    "src/ai_hq/delivery/repository_sandbox.py" ∷ "src/ai_hq/delivery/repository_profiles.py"
    ∷ "src/ai_hq/delivery/candidate_verifier.py" ∷ []

unfoldable pub high_risk_path : Json → Bool
unfolding high_risk_prefixes high_risk_files starts_with
high_risk_path (text path) =
    any (λ f. str_eq f path) high_risk_files || any (λ p. starts_with p path) high_risk_prefixes
high_risk_path _ = false

-- `_high_risk`
unfoldable pub high_risk : String → List Json → Bool
unfolding high_risk_path
high_risk repository changed_files = str_eq repository "ai-hq" && any high_risk_path changed_files

abbrev pub is_passed : Option QaResult → Bool
is_passed none = false
is_passed (some passed) = true
is_passed (some failed) = false

-- `value or {}`
abbrev pub or_empty : Option Fields → Fields
or_empty none = end
or_empty (some fs) = fs

abbrev pub all_published : Delivery → Bool
all_published d =
    not (is_none d.published_branch)
    && not (is_none d.published_commit)
    && not (is_none d.published_tree)

unfoldable pub result_of : CodeChangeService → String → ℕ → Delivery → CodeChangeResult
unfolding high_risk
result_of service repository mission_id d = record {
  mission_id = mission_id;
  repository = repository;
  summary = d.summary;
  change_ref = d.change_ref;
  changed_files = d.changed_files;
  developer_evidence = d.developer_evidence;
  qa_result = d.qa_result;
  qa_evidence = or_empty d.qa_evidence;
  approval_reference = d.approval_reference;
  ready_for_approval = is_passed d.qa_result && not (is_none d.approval_reference);
  high_risk = high_risk repository d.changed_files;
  repository_description = service.repository_description repository;
  published = all_published d;
  deployed = not (is_none d.deployment_release_id);
  deployment_release_id = d.deployment_release_id;
  deployment_prior_release_id = d.deployment_prior_release_id;
  rolled_back = not (is_none d.rollback_release_id);
  rollback_release_id = d.rollback_release_id;
}

-- `_result_for_mission`
unfoldable pub result_for_mission : CodeChangeService → String → ℕ → Exec Db CodeChangeResult
unfolding get_delivery result_of
result_for_mission service repository mission_id =
    get_delivery mission_id >>= λ d. pure (result_of service repository mission_id d)

abbrev pub is_code_change : Mission → Bool
is_code_change m = str_eq m.owner_agent "developer" && str_eq m.source "hq_chat_code_change"

-- `_trusted_repository(objectives[0])`
unfoldable pub repository_of : String → List Json → Result String
unfolding trusted_repository
repository_of missing [] = check false missing (ok "")
repository_of missing (text repository ∷ rest) = trusted_repository repository
repository_of missing (first ∷ rest) =
    check false "code change requires a trusted repository" (ok "")

-- The mission of a code change and its repository, as each operation begins.
unfoldable pub code_change_check : String → String → ℕ → Db → Result (Mission × String)
unfolding mission_row repository_of
code_change_check refused missing mission_id db =
    Checks.◌>>=◌ (found (mission_row mission_id db) (key_error "mission not found")) λ mission.
      check (is_code_change mission) refused (
        Checks.◌>>=◌ (repository_of missing mission.objectives)
          λ repository. ok (mission, repository))

unfoldable pub candidate_result : CodeChangeService → ℕ → Exec Db CodeChangeResult
unfolding code_change_check result_for_mission
candidate_result service mission_id db =
    after
      (code_change_check "mission is not an HQ code change" "code-change mission has no repository"
        mission_id db)
      (λ x. result_for_mission service x.1 mission_id) db

-- The checks of a release before the decision of the person is applied; `what` is its noun.
unfoldable pub release_check : String → ℕ → ℕ → String → Db → Result (String × Delivery)
unfolding code_change_check delivery_row
release_check what mission_id reference change_ref db =
    Checks.◌>>=◌
      (code_change_check "mission is not an HQ code change" "code-change mission has no repository"
        mission_id db)
      λ x.
        Checks.◌>>=◌
          (found (delivery_row mission_id db) (key_error "delivery not found for mission"))
          λ d. check (is_passed d.qa_result) (text_append "QA must pass before candidate " what) (
            check (same_stage d.stage DeliveryStage.waiting_approval)
              (text_append "candidate is not waiting for approved " what)
              (check (same_reference d.approval_reference reference)
                "approval reference does not match delivery"
                (check (str_eq d.change_ref change_ref)
                  "change_ref does not match approved proposal" (ok (x.1, d)))))

-- `if not test: raise ValueError(message)` in a method that writes.
abbrev pub ensure : {S A : Type 0} → Bool → String → Exec S A → Exec S A
ensure true message rest = rest
ensure false message rest = raise (value_error message)

-- The repository and the delivery of a release that a person has approved.
unfoldable pub approved_release : String → ℕ → ℕ → ℕ → String → Exec Db (String × Delivery)
unfolding release_check apply_human_decision
approved_release what now mission_id reference change_ref db =
    after (release_check what mission_id reference change_ref db)
      (λ x. apply_human_decision now mission_id reference change_ref >>= λ decided.
        ensure
          (same_stage decided.stage DeliveryStage.waiting_approval
            && is_passed decided.qa_result
            && same_reference decided.approval_reference reference)
          (text_append "approved human approval is required for " what) (pure (x.0, decided)))
      db

-- A method that reads and writes the tables only.
abbrev pub lift : {A : Type 0} → Exec Db A → Exec World A
lift m w = let (r, db) = m w.tables in (r, record w { tables = db })

-- A read of what is outside.
abbrev pub from : {A : Type 0} → Result A → Exec World A
from r w = (r, w)

-- Something done outside.
unfoldable pub carry_out :
    {A : Type 0} → CodeChangeService → Effect → (List Effect → Result A) → Exec World A
carry_out service effect answer w = (
  answer w.effects,
  record { tables = service.elsewhere w.tables; effects = w.effects ++ effect ∷ [] },
)
