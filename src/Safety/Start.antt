-- ===== src/Safety/Start.antt =====
-- system_state.py: the state of the system when a process starts. `meanwhile` is what other processes
-- do between its read and its commit. The row is never deleted.
use ai_hq.Prelude.{Option, none, some, true}
use ai_hq.Tables.{Db}
use ai_hq.Tables.System.{SystemState, OperatingMode}

abbrev pub initial_state : SystemState
initial_state = record { operating_mode = some OperatingMode.freeze; simulation_mode = true }

-- The commit of the new row, which fails if there is one already; that one is then read.
abbrev pub add_state : Option SystemState → Db → SystemState × Db
add_state none db = (initial_state, record db { system_state = some initial_state })
add_state (some state) db = (state, db)

abbrev pub state_or_new : Option SystemState → (Db → Db) → Db → SystemState × Db
state_or_new none meanwhile db = add_state (meanwhile db).system_state (meanwhile db)
state_or_new (some state) meanwhile db = (state, db)

unfoldable pub ensure_system_state : (Db → Db) → Db → SystemState × Db
ensure_system_state meanwhile db = state_or_new db.system_state meanwhile db
