-- ===== src/CodeChanges/Releases.antt =====
-- code_changes/service.py: publishing, deploying and rolling back an approved change. `now` is the
-- moment of the decision's check, and `later` that of the record after the work outside.
use ai_hq.Prelude.{
  ℕ, String, Bool, not, ◌||◌, Option, none, some, List, str_eq, is_none, if◌then◌else◌,
}
use ai_hq.Prelude.Result.{Result, Exec, runtime_error, raise, pure, ◌>>=◌, ◌>>◌}
use ai_hq.Json.{Json, Fields}
use ai_hq.Tables.Deliveries.{Delivery}
use ai_hq.Delivery.Releases.{record_publication, record_deployment, record_rollback}
use ai_hq.CodeChanges.Candidates.{
  PersistedCandidate, PublishedCandidate, published_candidate, DeployedRelease, RollbackTarget,
  rollback_target, RolledBackRelease,
}
use ai_hq.CodeChanges.Service.{
  Effect, publication, deployment, rollback, World, CodeChangeService, CodeChangeResult,
  result_for_mission, approved_release, all_published, ensure, lift, from, carry_out,
}

-- A column that is not null; the empty text stands for a null that the caller has excluded.
abbrev pub or_text : Option String → String
or_text none = ""
or_text (some s) = s

-- The candidate that the store has verified again, for this repository and change.
unfoldable pub reopened :
    (List Effect → ℕ → String → List Json → Fields → Result PersistedCandidate)
    → ℕ
    → String
    → String
    → Delivery
    → Exec World PersistedCandidate
reopened load mission_id change_ref repository d w =
    (from (load w.effects mission_id change_ref d.changed_files d.developer_evidence)
        >>= λ candidate.
            ensure (str_eq candidate.repository repository)
              "candidate repository does not match mission repository"
              (ensure (str_eq candidate.change_ref change_ref)
                "candidate change_ref does not match approved proposal" (pure candidate)))
      w

-- What follows on the publisher's answer.
unfoldable pub publication_taken :
    CodeChangeService
    → ℕ
    → ℕ
    → String
    → String
    → PersistedCandidate
    → PublishedCandidate
    → Exec World CodeChangeResult
unfolding record_publication result_for_mission
publication_taken service later mission_id change_ref repository candidate published =
    ensure (str_eq published.repository repository) "published repository does not match candidate"
      (ensure (str_eq published.change_ref change_ref)
        "published change_ref does not match candidate"
        (ensure (str_eq published.base_commit candidate.base_commit)
          "published base commit does not match candidate"
          (lift (
              record_publication later mission_id change_ref published.branch_name
                published.commit_sha published.tree_sha)
            >> lift (result_for_mission service repository mission_id))))

unfoldable pub publish_candidate :
    CodeChangeService
    → ℕ
    → ℕ
    → String
    → String
    → Delivery
    → Option (List Effect → ℕ → String → List Json → Fields → Result PersistedCandidate)
    → Option (List Effect → PersistedCandidate → Result PublishedCandidate)
    → Exec World CodeChangeResult
unfolding reopened carry_out publication_taken
publish_candidate service later mission_id change_ref repository d (some load) (some publish) =
    reopened load mission_id change_ref repository d >>= λ candidate.
    carry_out service (publication candidate) (λ effects. publish effects candidate)
    >>= publication_taken service later mission_id change_ref repository candidate
publish_candidate service later mission_id change_ref repository d _ _ =
    raise (runtime_error "code-change publication is not configured")

abbrev pub any_published : Delivery → Bool
any_published d =
    not (is_none d.published_branch)
    || not (is_none d.published_commit)
    || not (is_none d.published_tree)

unfoldable pub publish_approved_candidate :
    CodeChangeService → ℕ → ℕ → ℕ → ℕ → String → Exec World CodeChangeResult
unfolding approved_release publish_candidate result_for_mission
publish_approved_candidate service now later mission_id reference change_ref =
    lift (approved_release "publication" now mission_id reference change_ref) >>= λ x.
    if all_published x.1
    then lift (result_for_mission service x.0 mission_id)
    else ensure (not (any_published x.1)) "persisted publication identity is incomplete" (
        publish_candidate service later mission_id change_ref x.0 x.1 service.candidate_store
          service.publisher)

-- The identity that the publication recorded, for the deployer.
unfoldable pub recorded_candidate :
    String → String → Delivery → PersistedCandidate → Result PublishedCandidate
unfolding published_candidate
recorded_candidate repository change_ref d candidate = published_candidate (record {
  repository = repository;
  change_ref = change_ref;
  branch_name = or_text d.published_branch;
  commit_sha = or_text d.published_commit;
  tree_sha = or_text d.published_tree;
  base_commit = candidate.base_commit;
})

unfoldable pub deployment_taken :
    CodeChangeService → ℕ → ℕ → String → String → DeployedRelease → Exec World CodeChangeResult
unfolding record_deployment result_for_mission
deployment_taken service later mission_id change_ref repository deployed =
    ensure (str_eq deployed.repository repository) "deployed repository does not match candidate" (
      ensure (str_eq deployed.change_ref change_ref) "deployed change_ref does not match candidate"
        (lift (
            record_deployment later mission_id change_ref deployed.release_id
              deployed.prior_release_id)
          >> lift (result_for_mission service repository mission_id)))

unfoldable pub deploy_published :
    CodeChangeService
    → ℕ
    → ℕ
    → String
    → String
    → Delivery
    → Option (List Effect → PublishedCandidate → Result DeployedRelease)
    → Option (List Effect → ℕ → String → List Json → Fields → Result PersistedCandidate)
    → Exec World CodeChangeResult
unfolding reopened recorded_candidate carry_out deployment_taken
deploy_published service later mission_id change_ref repository d (some deploy) (some load) =
    reopened load mission_id change_ref repository d >>= λ candidate.
    from (recorded_candidate repository change_ref d candidate) >>= λ published.
    carry_out service (deployment published) (λ effects. deploy effects published)
    >>= deployment_taken service later mission_id change_ref repository
deploy_published service later mission_id change_ref repository d _ _ =
    raise (runtime_error "code-change deployment is not configured")

unfoldable pub deploy_approved_candidate :
    CodeChangeService → ℕ → ℕ → ℕ → ℕ → String → Exec World CodeChangeResult
unfolding approved_release deploy_published result_for_mission
deploy_approved_candidate service now later mission_id reference change_ref =
    lift (approved_release "deployment" now mission_id reference change_ref) >>= λ x.
    ensure (all_published x.1) "candidate must be published before deployment" (
      if not (is_none x.1.deployment_release_id) || not (is_none x.1.deployment_prior_release_id)
      then lift (result_for_mission service x.0 mission_id)
      else deploy_published service later mission_id change_ref x.0 x.1 service.deployer
          service.candidate_store)

unfoldable pub rollback_taken :
    CodeChangeService
    → ℕ
    → ℕ
    → String
    → String
    → String
    → RolledBackRelease
    → Exec World CodeChangeResult
unfolding record_rollback result_for_mission
rollback_taken service later mission_id change_ref repository prior restored =
    ensure (str_eq restored.repository repository) "rolled back repository does not match candidate"
      (ensure (str_eq restored.change_ref change_ref)
        "rolled back change_ref does not match candidate"
        (ensure (str_eq restored.release_id prior)
          "rolled back release does not match persisted history"
          (lift (record_rollback later mission_id change_ref restored.release_id)
            >> lift (result_for_mission service repository mission_id))))

unfoldable pub roll_back_to :
    CodeChangeService
    → ℕ
    → ℕ
    → String
    → String
    → String
    → Option (List Effect → RollbackTarget → String → Result RolledBackRelease)
    → Exec World CodeChangeResult
unfolding carry_out rollback_target rollback_taken
roll_back_to service later mission_id change_ref repository prior none =
    raise (runtime_error "code-change rollback is not configured")
roll_back_to service later mission_id change_ref repository prior (some roll_back) =
    from (rollback_target (record { repository = repository; change_ref = change_ref }))
    >>= λ target.
        carry_out service (rollback target prior) (λ effects. roll_back effects target prior)
        >>= rollback_taken service later mission_id change_ref repository prior

-- What is left of the method once a prior release is known.
unfoldable pub restore_prior :
    CodeChangeService
    → ℕ
    → ℕ
    → String
    → String
    → String
    → Option String
    → Exec World CodeChangeResult
unfolding roll_back_to result_for_mission
restore_prior service later mission_id change_ref repository prior none =
    roll_back_to service later mission_id change_ref repository prior service.rollbacker
restore_prior service later mission_id change_ref repository prior (some existing) =
    ensure (str_eq existing prior) "rollback identity does not match persisted rollback"
      (lift (result_for_mission service repository mission_id))

unfoldable pub rollback_approved_deployment :
    CodeChangeService → ℕ → ℕ → ℕ → ℕ → String → Exec World CodeChangeResult
unfolding approved_release restore_prior
rollback_approved_deployment service now later mission_id reference change_ref =
    lift (approved_release "rollback" now mission_id reference change_ref) >>= λ x.
    ensure (all_published x.1) "candidate must be published before rollback" (
      ensure (not (is_none x.1.deployment_release_id)) "candidate must be deployed before rollback"
        (ensure (not (is_none x.1.deployment_prior_release_id))
          "no prior known-good release is recorded for rollback"
          (restore_prior service later mission_id change_ref x.0
            (or_text x.1.deployment_prior_release_id) x.1.rollback_release_id)))
