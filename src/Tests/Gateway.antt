-- ===== src/Tests/Gateway.antt =====
-- The gateway on a mutation that a person approved.
use ai_hq.Prelude.{◌≡◌, refl, none, ◌++◌, [], ◌∷◌, if◌then◌else◌}
use ai_hq.Safety.Service.{system_state}
use ai_hq.Gateway.Service.{execute}
use ai_hq.Gateway.Authority.{was_called, Authority, execute_calls}
use ai_hq.Tables.{Db}
use ai_hq.Safety.Start.{ensure_system_state}
use ai_hq.Gateway.Start.{execute_all, new_system_quiet}
use ai_hq.Tests.Data.{base, recover, gateway, clock_from}

execute_calls_example : (execute gateway (clock_from 20) recover base).1.calls ≡ (
    if was_called (execute gateway (clock_from 20) recover base).0.state
    then base.calls ++ recover ∷ []
    else base.calls)
execute_calls_example = execute_calls gateway (clock_from 20) recover base

abbrev new_system : Db
new_system = record base { system_state = none }

-- The approved recovery does not run in a new system.
new_system_quiet_example :
    (execute_all gateway
      ((clock_from 20, recover) ∷ [])
      (ensure_system_state (λ db. db) new_system).1).calls
    ≡ new_system.calls
new_system_quiet_example =
    new_system_quiet gateway (λ db. db) ((clock_from 20, recover) ∷ []) new_system refl refl
