-- ===== src/Gateway/Start.antt =====
-- tool_gateway/service.py after system_state.py: what a new system does.
use ai_hq.Prelude.{ℕ, Option, none, some, List, [], ◌∷◌, ◌≡◌, refl, ◌∙◌, inl, inr, Bool-cases}
use ai_hq.Tables.{Db}
use ai_hq.Tables.System.{SystemState, freeze}
use ai_hq.Tools.{ToolRequest}
use ai_hq.Safety.Service.{system_state}
use ai_hq.Safety.Start.{initial_state, add_state, state_or_new, ensure_system_state}
use ai_hq.Gateway.Service.{ToolGateway, execute}
use ai_hq.Gateway.Authority.{was_called, execute_authorised, execute_calls}
use ai_hq.Gateway.Frame.{execute-KeepsMissions}

-- Requests to the gateway, each with the clock that it reads.
unfoldable pub execute_all : ToolGateway → List ((ℕ → ℕ) × ToolRequest) → Db → Db
unfolding execute
execute_all gateway [] db = db
execute_all gateway ((clock, r) ∷ rest) db = execute_all gateway rest (execute gateway clock r db).1

frozen_mode : (db : Db) → db.system_state ≡ some initial_state → (system_state db).0 ≡ freeze
unfolding system_state
frozen_mode db h = rw (system_state, h) refl

frozen-quiet :
    (gateway : ToolGateway) (clock : ℕ → ℕ) (r : ToolRequest) (db : Db)
    → db.system_state ≡ some initial_state
    → (execute gateway clock r db).1.calls ≡ db.calls
frozen-quiet gateway clock r db h =
    elim (Bool-cases (was_called (execute gateway clock r db).0.state)) [
      | inl t ↦ absurd ((execute_authorised gateway clock r db t).may_run.thawed (frozen_mode db h))
      | inr f ↦ execute_calls gateway clock r db ∙ rw f refl
    ]

add_state-IsNew :
    (o : Option SystemState) (db : Db)
    → o ≡ none
    → ((add_state o db).1.system_state ≡ some initial_state) × ((add_state o db).1.calls ≡ db.calls)
add_state-IsNew none db h = (refl, refl)
add_state-IsNew (some state) db h = cc

state_or_new-IsNew :
    (o : Option SystemState) (meanwhile : Db → Db) (db : Db)
    → o ≡ none
    → (meanwhile db).system_state ≡ none
    → ((state_or_new o meanwhile db).1.system_state ≡ some initial_state)
      × ((state_or_new o meanwhile db).1.calls ≡ (meanwhile db).calls)
state_or_new-IsNew none meanwhile db h still =
    add_state-IsNew (meanwhile db).system_state (meanwhile db) still
state_or_new-IsNew (some state) meanwhile db h still = cc

module _ (gateway : ToolGateway) where
  frozen_all :
      (requests : List ((ℕ → ℕ) × ToolRequest)) (db : Db)
      → db.system_state ≡ some initial_state
      → (execute_all gateway requests db).calls ≡ db.calls
  unfolding execute_all
  frozen_all [] db h = refl
  frozen_all ((clock, r) ∷ rest) db h =
      let mode = (execute-KeepsMissions gateway clock r db).mode in
      frozen_all rest (execute gateway clock r db).1 (mode ∙ h) ∙ frozen-quiet gateway clock r db h

  -- In a new system, whose state no other process has created meanwhile either, the start makes the
  -- state frozen, and then no sequence of requests to the gateway reaches an adapter, whatever they
  -- are and whatever has been approved.
  pub new_system_quiet :
      (meanwhile : Db → Db) (requests : List ((ℕ → ℕ) × ToolRequest)) (db : Db)
      → db.system_state ≡ none
      → (meanwhile db).system_state ≡ none
      → (execute_all gateway requests (ensure_system_state meanwhile db).1).calls
        ≡ (meanwhile db).calls
  unfolding ensure_system_state
  new_system_quiet meanwhile requests db new still =
      let (frozen, calls) = state_or_new-IsNew db.system_state meanwhile db new still in
      frozen_all requests (ensure_system_state meanwhile db).1 frozen ∙ calls
