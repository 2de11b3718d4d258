-- ===== src/Ledger.antt =====
-- ledger/service.py: the append-only operations ledger.
use ai_hq.Prelude.{ℕ, String, Option, List, [], ◌∷◌, ◌++◌, ◌==◌}
use ai_hq.Prelude.Rows.{where_rows}
use ai_hq.Json.{Fields}
use ai_hq.Tables.{Db}
use ai_hq.Tables.Ledger.{LedgerEvent, LedgerEventType}

-- The row joins the session and is written by the session's commit, or by `record` at once.
unfoldable pub add_to_session : ℕ → Option String → LedgerEventType → String → Fields → Db → Db
add_to_session mission_id agent_key event_type summary metadata db = record db {
  events =
      db.events
      ++ record {
        mission_id = mission_id;
        agent_key = agent_key;
        event_type = event_type;
        summary = summary;
        event_data = metadata;
      }
        ∷ [];
}

-- `OperationsLedger.record`: the row, and the table with it.
unfoldable pub record_event :
    ℕ → Option String → LedgerEventType → String → Fields → Db → LedgerEvent × Db
unfolding add_to_session
record_event mission_id agent_key event_type summary metadata db = (
  record {
    mission_id = mission_id;
    agent_key = agent_key;
    event_type = event_type;
    summary = summary;
    event_data = metadata;
  },
  add_to_session mission_id agent_key event_type summary metadata db,
)

unfoldable pub for_mission : ℕ → Db → List LedgerEvent
unfolding where_rows
for_mission mission_id db = where_rows (λ e. e.mission_id == mission_id) db.events
