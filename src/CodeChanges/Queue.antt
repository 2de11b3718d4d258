-- ===== src/CodeChanges/Queue.antt =====
-- code_changes/service.py: queueing a code change and preparing its candidate; code_changes/worker.py.
-- The runner of a repository is a parameter, as its protocol is: it may do to the tables whatever
-- it does, and others with it, and may fail.
use ai_hq.Prelude.{
  ℕ, String, Bool, true, false, ◌&&◌, ◌||◌, Option, none, some, [], ◌∷◌, str_eq, is_none,
  if◌then◌else◌,
}
use Prim.Native.String.{◌++◌ as text_append}
use ai_hq.Prelude.Result.{
  Result, Exec, ok, err, value_error, runtime_error, raise, pure, ◌>>=◌, ◌>>◌,
}
use ai_hq.Json.{Fields, text, bool, end, field}
use ai_hq.Tables.{Db}
use ai_hq.Tables.Missions.{Mission, MissionStatus, same_status, normal, amber}
use ai_hq.Tables.Deliveries.{Delivery, same_stage, qa}
use ai_hq.Missions.Lifecycle.{get_mission, create_mission, record_result, transition}
use ai_hq.Missions.Leases.{
  claim_oldest_code_change, renew_code_change_lease, release_code_change_lease,
}
use ai_hq.Delivery.Proposals.{delivery_row, get_delivery}
use ai_hq.CodeChanges.Service.{
  CodeChangeService, CodeChangeResult, trusted_repository, required_instruction, repository_of,
  result_for_mission, is_code_change, ensure,
}

pub record DeliveryRunner : Type 0 where
  pub run_developer : ℕ → Exec Db Bool
  pub run_qa : Delivery → Exec Db Bool

pub record QueuedCodeChange : Type 0 where
  pub mission_id : ℕ
  pub repository : String

-- `if r raises, raise`, for a check that reads nothing of the tables.
abbrev pub given : {S A : Type 0} → Result A → Exec S A
given r s = (r, s)

unfoldable pub create_code_change : ℕ → String → String → Exec Db Mission
unfolding create_mission
create_code_change now repository instruction = create_mission now (record {
  title = text_append "Code change: " repository;
  description = instruction;
  owner_agent = "developer";
  source = "hq_chat_code_change";
  priority = normal;
  risk = amber;
  objectives = text repository ∷ text instruction ∷ [];
  dependencies = [];
  xp_reward = 0;
})

unfoldable pub queue_candidate : ℕ → String → String → Exec Db QueuedCodeChange
unfolding trusted_repository required_instruction create_code_change
queue_candidate now repository instruction =
    given (trusted_repository repository) >>= λ repository'.
    given (required_instruction instruction) >>= λ instruction'.
    create_code_change now repository' instruction' >>= λ mission.
    pure (record { mission_id = mission.id; repository = repository' })

-- `_renew_worker_lease`
unfoldable pub renew_worker_lease : ℕ → ℕ → Option String → ℕ → Exec Db (Unit {0})
unfolding renew_code_change_lease
renew_worker_lease now mission_id none lease_seconds = pure tt
renew_worker_lease now mission_id (some worker) lease_seconds =
    renew_code_change_lease now mission_id worker lease_seconds >>= λ renewed.
    if renewed then pure tt else raise (runtime_error "code-change lease was lost")

unfoldable pub target_status : CodeChangeResult → MissionStatus
target_status result =
    if result.ready_for_approval then MissionStatus.waiting_approval else MissionStatus.completed

unfoldable pub result_payload : String → CodeChangeResult → Fields
result_payload repository result = field "repository" (text repository) (
    field "change_ref" (text result.change_ref)
      (field "ready_for_approval" (bool result.ready_for_approval) end))

-- The mission takes the outcome of its run.
unfoldable pub settle : ℕ → String → CodeChangeResult → Exec Db Mission
unfolding get_mission record_result transition target_status result_payload
settle mission_id repository result = get_mission mission_id >>= λ current.
    if same_status current.status (target_status result)
    then record_result mission_id (result_payload repository result)
    else if same_status current.status MissionStatus.running
    then transition mission_id (target_status result) (some (result_payload repository result)) none
    else raise (runtime_error "code-change mission changed state during preparation")

unfoldable pub give_back : ℕ → Option String → Exec Db (Unit {0})
unfolding release_code_change_lease
give_back mission_id none = pure tt
give_back mission_id (some worker) = release_code_change_lease mission_id worker >>= λ _. pure tt

abbrev pub failure : Option Fields
failure = some (
    field "code" (text "code_change_preparation_failed")
      (field "message" (text "Code-change candidate preparation failed.") end))

-- The handler of `except Exception`.
unfoldable pub give_up : ℕ → Option String → Exec Db (Unit {0})
unfolding get_mission transition give_back
give_up mission_id lease_owner = get_mission mission_id >>= λ current.
    (if same_status current.status MissionStatus.running
      then transition mission_id MissionStatus.failed none failure
      else pure current)
    >> give_back mission_id lease_owner

-- `try: m, except Exception: h, raise`
unfoldable pub or_else : {A : Type 0} → Exec Db A → Exec Db (Unit {0}) → Exec Db A
or_else m h db = elim (m db).0 [
  | ok a ↦ (ok a, (m db).1)
  | err e ↦ (elim (h (m db).1).0 [
    | ok u ↦ (err e, (h (m db).1).1)
    | err e' ↦ (err e', (h (m db).1).1)
  ])
]

module _ (clock : ℕ → ℕ) where
  -- The developer's delivery: the one that is there, if the run resumes, or a new one.
  unfoldable pub developed :
      DeliveryRunner → ℕ → Option String → ℕ → Option Delivery → Exec Db Delivery
  unfolding renew_worker_lease get_delivery
  developed runner mission_id lease_owner lease_seconds (some d) = pure d
  developed runner mission_id lease_owner lease_seconds none =
      renew_worker_lease (clock 1) mission_id lease_owner lease_seconds
      >> runner.run_developer mission_id
      >> get_delivery mission_id

  unfoldable pub reviewed : DeliveryRunner → ℕ → Option String → ℕ → Delivery → Exec Db (Unit {0})
  unfolding renew_worker_lease
  reviewed runner mission_id lease_owner lease_seconds d =
      if same_stage d.stage qa && is_none d.qa_result
      then renew_worker_lease (clock 2) mission_id lease_owner lease_seconds
        >> (runner.run_qa d >>= λ _. pure tt)
      else pure tt

  -- Taking up the mission: a queued one is started, a leased one keeps its lease.
  unfoldable pub take_up : Mission → Option String → ℕ → MissionStatus → Exec Db (Unit {0})
  unfolding transition renew_code_change_lease
  take_up mission none lease_seconds MissionStatus.queued =
      transition mission.id MissionStatus.running none none >>= λ _. pure tt
  take_up mission (some worker) lease_seconds MissionStatus.queued =
      raise (value_error "leased code change must already be running")
  take_up mission none lease_seconds MissionStatus.running = pure tt
  take_up mission (some worker) lease_seconds MissionStatus.running =
      ensure (elim mission.lease_owner [ none ↦ false | some o ↦ str_eq o worker ])
        "code-change lease owner mismatch"
        (renew_code_change_lease (clock 0) mission.id worker lease_seconds >>= λ renewed.
          if renewed then pure tt else raise (runtime_error "code-change lease was lost"))
  take_up mission lease_owner lease_seconds status =
      raise (value_error "queued code change is not runnable")

module _ (service : CodeChangeService) (runner_factory : String → Result DeliveryRunner)
    (clock : ℕ → ℕ) where
  -- `_run_existing_mission`
  unfoldable pub run_existing_mission :
      ℕ → String → Option String → ℕ → Bool → Exec Db CodeChangeResult
  unfolding developed reviewed delivery_row result_for_mission
  run_existing_mission mission_id repository lease_owner lease_seconds resume_existing db =
      (given (runner_factory repository) >>= λ runner.
      developed clock runner mission_id lease_owner lease_seconds
        (if resume_existing then delivery_row mission_id db else none)
      >>= λ d.
          reviewed clock runner mission_id lease_owner lease_seconds d
          >> result_for_mission service repository mission_id)
        db

  unfoldable pub prepare_candidate : ℕ → String → String → Exec Db CodeChangeResult
  unfolding trusted_repository required_instruction create_code_change run_existing_mission
  prepare_candidate now repository instruction =
      given (trusted_repository repository) >>= λ repository'.
      given (required_instruction instruction) >>= λ instruction'.
      create_code_change now repository' instruction' >>= λ mission.
      run_existing_mission mission.id repository' none 900 false

  unfoldable pub work : ℕ → String → Option String → ℕ → Exec Db CodeChangeResult
  unfolding run_existing_mission settle give_back
  work mission_id repository lease_owner lease_seconds =
      run_existing_mission mission_id repository lease_owner lease_seconds true >>= λ result.
      settle mission_id repository result >> give_back mission_id lease_owner >> pure result

  -- What the method does with a mission that is neither waiting nor completed.
  unfoldable pub process : Mission → String → Option String → ℕ → Exec Db CodeChangeResult
  unfolding take_up work give_up or_else
  process mission repository lease_owner lease_seconds =
      take_up clock mission lease_owner lease_seconds mission.status
      >> or_else (work mission.id repository lease_owner lease_seconds)
          (give_up mission.id lease_owner)

  unfoldable pub process_queued_candidate : ℕ → Option String → ℕ → Exec Db CodeChangeResult
  unfolding get_mission repository_of result_for_mission process
  process_queued_candidate mission_id lease_owner lease_seconds =
      get_mission mission_id >>= λ mission.
      ensure (is_code_change mission) "mission is not a queued HQ code change" (
        given (repository_of "queued code change has no repository" mission.objectives)
        >>= λ repository.
            if same_status mission.status MissionStatus.waiting_approval
              || same_status mission.status MissionStatus.completed
            then result_for_mission service repository mission.id
            else process mission repository lease_owner lease_seconds)

  -- code_changes/worker.py: `CodeChangeQueueRunner.run_once`, with the mission service.
  unfoldable pub run_once : ℕ → String → ℕ → Exec Db (Option CodeChangeResult)
  unfolding claim_oldest_code_change process_queued_candidate
  run_once now worker_id lease_seconds =
      claim_oldest_code_change now worker_id lease_seconds >>= λ claimed. elim claimed [
        | none ↦ pure none
        | some mission ↦
            process_queued_candidate mission.id (some worker_id) lease_seconds >>= λ result.
            pure (some result)
      ]
