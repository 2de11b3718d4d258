-- ===== src/Missions/Terminal.antt =====
-- missions/service.py: finished missions under the operations that write missions.
use ai_hq.Prelude.{ℕ, true, false, List, [], ◌∷◌, ◌≡◌, sym, subst, arith}
use ai_hq.Tables.{Db}
use ai_hq.Tables.Missions.{Mission, MissionStatus}
use ai_hq.Missions.Transitions.{is_terminal}
use ai_hq.Missions.Leases.{may_claim}
use ai_hq.Missions.Moves.{HasStatus, transition-HasStatus}
use ai_hq.Missions.Commands.{
  Command, create, set_result, assign, move, claim, renew, release, perform, perform_all,
  record_result-HasRow, assign_owner-HasRow, create_mission-HasRow, claim-HasRow, renew-HasRow,
  release-HasRow,
}

module _ (id : ℕ) (s : MissionStatus) (fin : is_terminal s ≡ true) where
  not_claimed :
      (now mission_id : ℕ) (x : Mission) → x.status ≡ s → may_claim now mission_id x ≡ false
  not_claimed now mission_id x st = ground (arith, subst (λ t. is_terminal t ≡ true) (sym st) fin)

  perform-HasStatus : (c : Command) (db : Db) → HasStatus id s db → HasStatus id s (perform c db)
  unfolding perform
  perform-HasStatus (create now new) db h = create_mission-HasRow id _ now new db h
  perform-HasStatus (set_result i result) db h =
      record_result-HasRow id (λ m. m.status ≡ s) i result db (λ m st. st) h
  perform-HasStatus (assign i owner) db h =
      assign_owner-HasRow id (λ m. m.status ≡ s) i owner db (λ m t st. st) h
  perform-HasStatus (move i target r e) db h = transition-HasStatus id s i target r e db fin h
  perform-HasStatus (claim now worker seconds) db h =
      claim-HasRow id (λ m. m.status ≡ s) now (not_claimed now) worker seconds db h
  perform-HasStatus (renew now i worker seconds) db h =
      renew-HasRow id (λ m. m.status ≡ s) now i worker seconds db (λ m st. ground arith) h
  perform-HasStatus (release i worker) db h =
      release-HasRow id (λ m. m.status ≡ s) i worker db (λ m st. ground arith) h

  -- A mission that is completed, failed or cancelled keeps that status, and stays in the store,
  -- under every sequence of calls that create, assign, move, claim, renew, release or give a
  -- result to missions.
  pub terminal_forever :
      (cs : List Command) (db : Db) → HasStatus id s db → HasStatus id s (perform_all cs db)
  unfolding perform_all
  terminal_forever [] db h = h
  terminal_forever (c ∷ cs) db h = terminal_forever cs (perform c db) (perform-HasStatus c db h)
