-- ===== src/CodeChanges/Deployers.antt =====
-- code_changes/deployer.py and rollbacker.py: the operational deployer and rollbacker, which ask the
-- transport of the operational adapters. The requests that adapters were given before stand for
-- what the transport has seen.
use ai_hq.Prelude.{String, Bool, true, false, Option, none, some, List, str_eq, if◌then◌else◌}
use Prim.Native.String.{◌++◌ as text_append}
use ai_hq.Prelude.Result.{Result, ok, err, value_error, runtime_error}
use ai_hq.Prelude.Checks.{◌>>=◌, check, found}
use ai_hq.Json.{Json, Fields, get_field, bool, text, null}
use ai_hq.Tools.{ToolRequest}
use ai_hq.Delivery.Identity.{release_id_valid}
use ai_hq.Operations.Targets.{OperationalTarget, OperationalTargetRegistry, allows, resolve_target}
use ai_hq.Operations.Adapters.{OperationalTransport, deploy, roll_back}
use ai_hq.CodeChanges.Candidates.{
  PublishedCandidate, DeployedRelease, deployed_release, RollbackTarget, RolledBackRelease,
  rolled_back_release, is_trusted,
}

-- `if not test: raise RuntimeError(message)`
abbrev pub confirm {ℓ} : {A : Type ℓ} → Bool → String → Result A → Result A
confirm true message rest = rest
confirm false message rest = err (runtime_error message)

-- Both constructors: `what` is `deploy` or `rollback`, and `transport` names the transport.
unfoldable pub operational_target :
    String → String → String → Bool → OperationalTargetRegistry → String → Result OperationalTarget
unfolding resolve_target
operational_target what capability transport has_method targets repository =
    check (is_trusted repository) (text_append "unsupported " (text_append what " target")) (
      found (resolve_target targets repository)
        (value_error (text_append "unknown " (text_append what " target")))
      >>= λ target.
          check (allows target capability)
            (text_append capability " is not granted for this target")
            (check has_method (text_append transport " transport is unavailable") (ok target)))

unfoldable pub deployer_target :
    OperationalTargetRegistry → OperationalTransport → String → Result OperationalTarget
unfolding operational_target
deployer_target targets transport repository =
    operational_target "deploy" "deployment.deploy" "deployment" transport.has_deployment_deploy
      targets repository

unfoldable pub rollbacker_target :
    OperationalTargetRegistry → OperationalTransport → String → Result OperationalTarget
unfolding operational_target
rollbacker_target targets transport repository =
    operational_target "rollback" "deployment.rollback" "rollback" transport.has_deployment_rollback
      targets repository

-- `result.get(key) is True`
unfoldable pub confirms : String → Fields → Bool
unfolding get_field
confirms key result = elim (get_field key result) [
  | none ↦ false
  | some v ↦ (elim v [ bool b ↦ b | _ ↦ false ])
]

-- A trusted release id of an answer.
unfoldable pub trusted_id : Option Json → Option String
unfolding release_id_valid
trusted_id (some (text id)) = if release_id_valid id then some id else none
trusted_id _ = none

-- `prior_release_id`: it may be missing or null, else it must be a trusted id.
unfoldable pub trusted_prior : Option Json → Result (Option String)
unfolding trusted_id
trusted_prior none = ok none
trusted_prior (some null) = ok none
trusted_prior (some v) =
    found (trusted_id (some v))
      (runtime_error "deployment adapter returned no trusted prior release id")
    >>= λ id. ok (some id)

-- `OperationalCandidateDeployer.deploy`
unfoldable pub deploy_candidate :
    OperationalTransport
    → OperationalTarget
    → List ToolRequest
    → PublishedCandidate
    → Result DeployedRelease
unfolding confirms trusted_id trusted_prior get_field deployed_release
deploy_candidate transport target calls candidate =
    check (str_eq candidate.repository target.key)
      "candidate repository does not match deploy target"
      (found (transport.answer calls (deploy target))
          (runtime_error "deployment adapter returned an invalid result")
        >>= λ result.
            confirm (confirms "deployed" result) "deployment adapter did not confirm deployment" (
              found (trusted_id (get_field "release_id" result))
                (runtime_error "deployment adapter returned no trusted release id")
              >>= λ id. trusted_prior (get_field "prior_release_id" result) >>= λ prior.
                  deployed_release (record {
                    repository = candidate.repository;
                    change_ref = candidate.change_ref;
                    release_id = id;
                    prior_release_id = prior;
                  })))

-- `OperationalCandidateRollbacker.rollback`
unfoldable pub rollback_candidate :
    OperationalTransport
    → OperationalTarget
    → List ToolRequest
    → RollbackTarget
    → String
    → Result RolledBackRelease
unfolding confirms trusted_id release_id_valid get_field rolled_back_release
rollback_candidate transport target calls t release_id =
    check (str_eq t.repository target.key) "rollback target does not match transport target" (
      check (release_id_valid release_id) "release id must use the trusted release identity charset"
        (found (transport.answer calls (roll_back target release_id))
            (runtime_error "rollback adapter returned an invalid result")
          >>= λ result.
              confirm (confirms "rolled_back" result) "rollback adapter did not confirm rollback" (
                found (trusted_id (get_field "release_id" result))
                  (runtime_error "rollback adapter returned no trusted release id")
                >>= λ id.
                    confirm (str_eq id release_id)
                      "rollback adapter confirmed a different release id"
                      (rolled_back_release (record {
                        repository = t.repository;
                        change_ref = t.change_ref;
                        release_id = id;
                      })))))
