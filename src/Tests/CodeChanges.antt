-- ===== src/Tests/CodeChanges.antt =====
-- Code changes: an approved change of a trusted repository, with answers from outside.
use ai_hq.Prelude.{String, true, false, Option, none, some, [], ◌∷◌, ◌≡◌, refl, ◌⊎◌}
use ai_hq.Prelude.Result.{ok, pure, runtime_error, raise}
use ai_hq.Json.{text, bool, end, field}
use ai_hq.Tables.{Db}
use ai_hq.Tables.Missions.{Mission, MissionStatus}
use ai_hq.Operations.Targets.{OperationalTarget}
use ai_hq.Operations.Adapters.{OperationalTransport}
use ai_hq.CodeChanges.Candidates.{PersistedCandidate, PublishedCandidate, DeployedRelease}
use ai_hq.CodeChanges.Service.{CodeChangeService, publication, World}
use ai_hq.CodeChanges.Releases.{publish_approved_candidate}
use ai_hq.CodeChanges.Permission.{release, publish_change, release_permitted, IsDone}
use ai_hq.CodeChanges.Queue.{DeliveryRunner, take_up, process}
use ai_hq.CodeChanges.Settled.{Rests, process-Rests}
use ai_hq.CodeChanges.Deployers.{deploy_candidate}
use ai_hq.CodeChanges.Answers.{deploy_ignores_change}
use ai_hq.Tests.Data.{base, mission_at}
use ai_hq.Tests.Delivery.{sha, branch, cleared}

abbrev code_change_at : MissionStatus → Mission
code_change_at status = record (mission_at 1 status) {
  owner_agent = "developer";
  source = "hq_chat_code_change";
  objectives = text "ai-hq" ∷ [];
}

abbrev candidate : PersistedCandidate
candidate = record {
  mission_id = 1;
  repository = "ai-hq";
  workspace_id = "w";
  base_ref = "main";
  base_commit = sha;
  change_ref = "c1";
  changed_files = [];
  content_digest = "d";
}

abbrev published : PublishedCandidate
published = record {
  repository = "ai-hq";
  change_ref = "c1";
  branch_name = branch;
  commit_sha = sha;
  tree_sha = sha;
  base_commit = sha;
}

abbrev service : CodeChangeService
service = record {
  candidate_store = some (λ effects id ref files evidence. ok candidate);
  publisher = some (λ effects c. ok published);
  deployer = none;
  rollbacker = none;
  repository_description = λ repository. "";
  elsewhere = λ db. db;
}

abbrev world : World
world = record {
  tables = record cleared { missions = code_change_at MissionStatus.waiting_approval ∷ [] };
  effects = [];
}

release_permitted_example :
    ((release publish_change service 10 11 1 3 "c1" world).1.effects ≡ [])
    ⊎ IsDone 10 1 "c1" world (release publish_change service 10 11 1 3 "c1" world).1
release_permitted_example = release_permitted service publish_change 10 11 1 3 "c1" world

-- The change is published.
release_publishes :
    (release publish_change service 10 11 1 3 "c1" world).1.effects ≡ publication candidate ∷ []
unfolding release publish_approved_candidate
release_publishes = refl

-- A runner whose developer fails.
abbrev failing : DeliveryRunner
failing = record { run_developer = λ id. raise (runtime_error "no model"); run_qa = λ d. pure true }

abbrev queued : Db
queued = record base { missions = code_change_at MissionStatus.queued ∷ [] }

queued_taken :
    (take_up (λ n. n) (code_change_at MissionStatus.queued) none 900 MissionStatus.queued queued).0
    ≡ ok tt
unfolding take_up
queued_taken = refl

process-Rests_example :
    Rests 1
      (process service
        (λ r. ok failing)
        (λ n. n)
        (code_change_at MissionStatus.queued)
        "ai-hq"
        none
        900
        queued).1
process-Rests_example =
    process-Rests service (λ r. ok failing) (λ n. n) (code_change_at MissionStatus.queued) "ai-hq"
      none 900 queued queued_taken

abbrev host : OperationalTarget
host = record {
  key = "ai-hq";
  service_unit = "ai-hq.service";
  allowed_capabilities = "deployment.deploy" ∷ [];
  health_url = none;
  log_unit = none;
  deploy_entrypoint = none;
  rollback_entrypoint = none;
  host_helper_service_target = none;
  host_helper_log_target = none;
}

abbrev deploying : OperationalTransport
deploying = record {
  has_service_recover = false;
  has_deployment_deploy = true;
  has_deployment_rollback = false;
  answer = λ calls call. some (field "deployed" (bool true) (field "release_id" (text "r2") end));
}

abbrev ref_a : String
ref_a = "sha256:0123456789abcdef0123456789abcdef0123456789abcdef0123456789abcdef"

abbrev ref_b : String
ref_b = "sha256:aaaaaaaaaaaaaaaaaaaaaaaaaaaaaaaaaaaaaaaaaaaaaaaaaaaaaaaaaaaaaaaa"

abbrev deployed_as : String → DeployedRelease
deployed_as ref = record {
  repository = "ai-hq";
  change_ref = ref;
  release_id = "r2";
  prior_release_id = none;
}

abbrev of_change : String → PublishedCandidate
of_change ref = record published { change_ref = ref }

deploys_a : deploy_candidate deploying host [] (of_change ref_a) ≡ ok (deployed_as ref_a)
unfolding deploy_candidate
deploys_a = refl

deploys_b : deploy_candidate deploying host [] (of_change ref_b) ≡ ok (deployed_as ref_b)
unfolding deploy_candidate
deploys_b = refl

deploy_ignores_change_example : (◌≡◌ {A = String} "r2" "r2") × (◌≡◌ {A = Option String} none none)
deploy_ignores_change_example =
    deploy_ignores_change deploying host [] (of_change ref_a) (of_change ref_b) (deployed_as ref_a)
      (deployed_as ref_b) deploys_a deploys_b
