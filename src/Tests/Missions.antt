-- ===== src/Tests/Missions.antt =====
-- Missions and plans at concrete tables.
use ai_hq.Prelude.{refl, none, some, [], ◌∷◌, List, arith, String, eq_iff, ◌≢◌, ◌≡◌, true, false}
use ai_hq.Tables.{Db}
use ai_hq.Tables.Missions.{Mission, MissionStatus}
use ai_hq.Missions.Lifecycle.{mission_row}
use ai_hq.Missions.Plan.{PlannedStep, create_plan, claim_next_pending_step}
use ai_hq.Missions.Moves.{HasStatus, HasRow}
use ai_hq.Missions.Commands.{Command, move, claim, assign, renew, release, perform_all}
use ai_hq.Missions.Terminal.{terminal_forever}
use ai_hq.Missions.Holding.{IsHeld, IsForeign, AllForeign, lease_exclusive}
use ai_hq.Missions.Sequential.{IsSequential, claim_next_pending_step-IsSequential}
use ai_hq.Missions.Planning.{create_plan-IsSequential}
use ai_hq.Tests.Data.{base, mission_at}

abbrev attempts : List Command
attempts = move 2 MissionStatus.running none none ∷ claim 5 "worker" 60 ∷ assign 2 "developer" ∷ []

terminal_forever_example : HasStatus 2 MissionStatus.failed (perform_all attempts base)
terminal_forever_example =
    terminal_forever 2 MissionStatus.failed refl attempts base
      (mission_at 2 MissionStatus.failed, unfold mission_row in refl, refl)

pub base-IsSequential : IsSequential base
base-IsSequential = record {
  fresh = λ s m. elim m [ ];
  unique = λ s t m n e. elim m [ ];
  positions = λ s t m n e q. elim m [ ];
  ordered = λ s t m n e q k. elim m [ ];
}

abbrev two_steps : List PlannedStep
two_steps =
    record { description = "Stop"; tool_name = "service.stop"; tool_arguments = none }
    ∷ record { description = "Start"; tool_name = "service.start"; tool_arguments = none }
    ∷ []

two_steps-IsSequential : IsSequential (create_plan 1 two_steps none base).1
two_steps-IsSequential = create_plan-IsSequential 1 two_steps none base base-IsSequential

claim_next_pending_step-IsSequential_example :
    IsSequential (claim_next_pending_step 1 (create_plan 1 two_steps none base).1).1
claim_next_pending_step-IsSequential_example =
    claim_next_pending_step-IsSequential 1 (create_plan 1 two_steps none base).1
      two_steps-IsSequential

abbrev held_mission : Mission
held_mission = record (mission_at 1 MissionStatus.running) {
  source = "hq_chat_code_change";
  owner_agent = "developer";
  lease_owner = some "worker-a";
  lease_expires_at = some 100;
}

abbrev held : Db
held = record base { missions = held_mission ∷ mission_at 2 MissionStatus.queued ∷ [] }

abbrev intruders : List Command
intruders =
    claim 50 "worker-b" 60
    ∷ renew 60 1 "worker-b" 60
    ∷ move 2 MissionStatus.running none none
    ∷ release 1 "worker-b"
    ∷ claim 100 "worker-b" 60
    ∷ []

workers_apart : ◌≢◌ {A = String} "worker-a" "worker-b"
workers_apart e = let t : false ≡ true = (eq_iff "worker-a" "worker-b").1 e in cc

lease_exclusive_example : HasRow 1 (IsHeld "worker-a" 100) (perform_all intruders held)
unfolding AllForeign IsForeign mission_row
lease_exclusive_example =
    lease_exclusive 1 "worker-a" 100 intruders held
      (omega arith, (workers_apart, (λ e. ground (arith, e), (workers_apart, (omega arith, tt)))))
      (held_mission, refl, record { running = refl; owner = refl; until = refl })
