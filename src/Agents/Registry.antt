-- ===== src/Agents/Registry.antt =====
-- agents/registry.py: `AgentRegistry`. The column `key` is unique, so that a row with a key is the
-- first one.
use ai_hq.Prelude.{
  ℕ, String, Bool, true, false, Option, none, List, [], ◌∷◌, ◌++◌, if◌then◌else◌, str_eq, any,
}
use ai_hq.Prelude.Result.{Result, ok, err, Exec, key_error, value_error}
use ai_hq.Prelude.Rows.{find, update_where}
use ai_hq.Prelude.Checks.{◌>>=◌, found}
use ai_hq.Tables.{Db}
use ai_hq.Tables.System.{Agent, AgentStatus, idle, working, waiting_approval, failed, completed}

-- `_PHASE1_AGENTS`
pub record AgentDefinition : Type 0 where
  pub key : String
  pub display_name : String
  pub role : String
  pub capabilities : List String
  pub permissions : List String

abbrev pub dripvid_mcp_read_permissions : List String
dripvid_mcp_read_permissions =
    "dripvid.health.read" ∷ "dripvid.release.read" ∷ "dripvid.config.read"
    ∷ "dripvid.service.status.read" ∷ []

abbrev pub phase1_agents : List AgentDefinition
phase1_agents =
    record {
      key = "commander";
      display_name = "Commander";
      role = "Primary coordinator and mission orchestrator";
      capabilities =
          "mission.create" ∷ "mission.delegate" ∷ "mission.prioritize" ∷ "mission.retry"
          ∷ "knowledge.read_shared" ∷ "agents.view_status" ∷ [];
      permissions = [];
    }
    ∷ record {
      key = "communications";
      display_name = "Communications";
      role = "Email and contact intelligence specialist";
      capabilities =
          "email.read" ∷ "email.search" ∷ "email.summarize" ∷ "email.draft" ∷ "contacts.read" ∷ [];
      permissions = [];
    }
    ∷ record {
      key = "calendar";
      display_name = "Calendar";
      role = "Schedule and planning specialist";
      capabilities =
          "calendar.read" ∷ "calendar.free_busy" ∷ "calendar.summarize"
          ∷ "calendar.create_private_reminder" ∷ [];
      permissions = [];
    }
    ∷ record {
      key = "sysadmin";
      display_name = "SysAdmin";
      role = "Restricted infrastructure observation specialist";
      capabilities =
          "system.health" ∷ "container.inspect" ∷ "container.health" ∷ "logs.read" ∷ "disk.inspect"
          ∷ [];
      permissions = dripvid_mcp_read_permissions;
    }
    ∷ []

abbrev pub is_key : String → Agent → Bool
is_key key a = str_eq a.key key

abbrev pub new_agent : AgentDefinition → Agent
new_agent d = record {
  key = d.key;
  display_name = d.display_name;
  role = d.role;
  status = idle;
  level = 1;
  xp = 0;
  current_mission_id = none;
  capabilities = d.capabilities;
  permissions = d.permissions;
}

-- `if permission not in permissions: permissions.append(permission)`
abbrev pub add_permission : String → List String → List String
add_permission p ps = if any (λ q. str_eq q p) ps then ps else ps ++ (p ∷ [])

unfoldable pub add_permissions : List String → List String → List String
add_permissions [] ps = ps
add_permissions (n ∷ ns) ps = add_permissions ns (add_permission n ps)

-- A definition without permissions leaves them as they are.
abbrev pub granted : AgentDefinition → Agent → Agent
granted d a = record a { permissions = add_permissions d.permissions a.permissions }

-- The body of the loop of `ensure_phase1_agents`, on the rows.
unfoldable pub ensure_agent : AgentDefinition → List Agent → List Agent
ensure_agent d [] = new_agent d ∷ []
ensure_agent d (x ∷ xs) =
    let rest = ensure_agent d xs in if str_eq x.key d.key then granted d x ∷ xs else x ∷ rest

unfoldable pub ensure_agents : List AgentDefinition → List Agent → List Agent
ensure_agents [] xs = xs
ensure_agents (d ∷ ds) xs = ensure_agents ds (ensure_agent d xs)

-- `[by_key[definition["key"]] for definition in _PHASE1_AGENTS]`
unfoldable pub rows_of : List AgentDefinition → List Agent → Result (List Agent)
unfolding find
rows_of [] xs = ok []
rows_of (d ∷ ds) xs = found (find (is_key d.key) xs) (key_error d.key) >>= λ a.
    rows_of ds xs >>= λ rest. ok (a ∷ rest)

abbrev pub with_agents : List Agent → Db → Db
with_agents agents db = record db { agents = agents }

unfoldable pub ensure_phase1_agents : Exec Db (List Agent)
unfolding ensure_agents rows_of
ensure_phase1_agents db =
    let agents = ensure_agents phase1_agents db.agents in
    (rows_of phase1_agents agents, with_agents agents db)

unfoldable pub get_by_key : String → Db → Result Agent
unfolding find
get_by_key key db = found (find (is_key key) db.agents) (key_error "agent not found")

-- `AgentStatus(status)`
abbrev pub agent_status : String → Result AgentStatus
agent_status s =
    if str_eq s "IDLE"
    then ok idle
    else if str_eq s "WORKING"
    then ok working
    else if str_eq s "WAITING_APPROVAL"
    then ok waiting_approval
    else if str_eq s "FAILED"
    then ok failed
    else if str_eq s "COMPLETED"
    then ok completed
    else err (value_error "not a valid AgentStatus")

abbrev pub in_state : AgentStatus → Option ℕ → Agent → Agent
in_state status mission a = record a { status = status; current_mission_id = mission }

-- The row with its new state, given the row of that key and the status.
abbrev pub write_state : String → Option ℕ → Result Agent → Result AgentStatus → Exec Db Agent
write_state key mission (err e) s db = (err e, db)
write_state key mission (ok a) (err e) db = (err e, db)
write_state key mission (ok a) (ok status) db =
    let f = in_state status mission in
    (ok (f a), with_agents (update_where (is_key key) f db.agents) db)

unfoldable pub set_state : String → String → Option ℕ → Exec Db Agent
unfolding get_by_key update_where
set_state key status mission db =
    write_state key mission (get_by_key key db) (agent_status status) db

-- The calls of the registry that write.
pub data RegistryCall : Type 0 where
  start : RegistryCall
  set : String → String → Option ℕ → RegistryCall

abbrev pub is_start : RegistryCall → Bool
is_start start = true
is_start (set key status mission) = false

unfoldable pub run_call : RegistryCall → Db → Db
unfolding ensure_phase1_agents set_state
run_call start db = (ensure_phase1_agents db).1
run_call (set key status mission) db = (set_state key status mission db).1

unfoldable pub run_calls : List RegistryCall → Db → Db
unfolding run_call
run_calls [] db = db
run_calls (c ∷ cs) db = run_calls cs (run_call c db)
