-- ===== src/Tests/Agents.antt =====
-- The registry of the agents.
use ai_hq.Prelude.{true, ◌||◌, none, some, [], ◌∷◌, map, ◌≡◌, refl}
use ai_hq.Prelude.Result.{err, value_error, key_error}
use ai_hq.Gateway.Service.{has_exact_permission}
use ai_hq.Agents.Registry.{
  start, set, run_calls, ensure_phase1_agents, ensure_agents, ensure_agent, add_permissions,
  get_by_key, set_state,
}
use ai_hq.Agents.Authority.{registry_authority}
use ai_hq.Tests.Data.{base}

-- The row of the SysAdmin, which may recover services, also gets the permissions to read.
registry_authority_example :
    has_exact_permission "sysadmin" "dripvid.health.read"
      (run_calls (set "sysadmin" "WORKING" (some 1) ∷ start ∷ []) base)
    ≡ (has_exact_permission "sysadmin" "dripvid.health.read" base || true)
registry_authority_example =
    registry_authority "dripvid.health.read" "sysadmin"
      (set "sysadmin" "WORKING" (some 1) ∷ start ∷ []) base

started_agents :
    map (λ a. a.key) ((ensure_phase1_agents base).1).agents
    ≡ ("sysadmin" ∷ "commander" ∷ "communications" ∷ "calendar" ∷ [])
unfolding ensure_phase1_agents ensure_agents ensure_agent add_permissions
started_agents = refl

unknown_status :
    (set_state "sysadmin" "BUSY" none base).0 ≡ err (value_error "not a valid AgentStatus")
unfolding set_state get_by_key
unknown_status = refl

unknown_agent : (set_state "sales" "BUSY" none base).0 ≡ err (key_error "agent not found")
unfolding set_state get_by_key
unknown_agent = refl
