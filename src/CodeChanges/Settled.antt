-- ===== src/CodeChanges/Settled.antt =====
-- code_changes/service.py: a code change that has been taken up is never left running.
use ai_hq.Prelude.{
  ℕ, String, true, Option, none, some, ◌≡◌, ◌≢◌, refl, sym, ap, subst, ◌∙◌, inl, inr, ◌⊎◌, arith,
  Bool-cases, Option-cases, ◌==◌,
}
use ai_hq.Prelude.Result.{Result, Result-cases, Exec, ok, ◌>>=◌, ◌>>◌, pure}
use ai_hq.Json.{Fields}
use ai_hq.Tables.{Db}
use ai_hq.Tables.Missions.{Mission, MissionStatus, same_status}
use ai_hq.Missions.Transitions.{allowed_transition}
use ai_hq.Missions.Lifecycle.{mission_row, get_mission, put_mission, transition, moved}
use ai_hq.Prelude.Rows.Finds.{updated}
use ai_hq.Missions.Leases.{may_release, drop_lease, release_code_change_lease}
use ai_hq.Missions.Moves.{HasRow, mission_row-put_copy, transition_done, mission_row-status_change}
use ai_hq.Missions.Commands.{record_result-HasRow, release-HasRow}
use ai_hq.CodeChanges.Service.{CodeChangeService, CodeChangeResult}
use ai_hq.CodeChanges.Queue.{
  DeliveryRunner, run_existing_mission, take_up, target_status, result_payload, settle, give_back,
  work, give_up, failure, or_else, process,
}

abbrev pub IsIdle : Mission → Type 0
IsIdle m = m.status ≢ MissionStatus.running

-- The mission does not run, or it is gone.
abbrev pub Rests : ℕ → Db → Type 0
Rests id db = (mission_row id db ≡ none) ⊎ HasRow id IsIdle db

bind_ok :
    {S A B : Type 0} (m : Exec S A) (f : A → Exec S B) (s : S) {b : B}
    → ((m >>= f) s).0 ≡ ok b
    → (a : A) × ((m s).0 ≡ ok a) × ((m >>= f) s ≡ f a (m s).1)
bind_ok m f s h = elim (Result-cases (m s).0) [
  | inl (e, k) ↦ cc (rw (◌>>=◌, k) at h)
  | inr (a, k) ↦ (a, k, rw (◌>>=◌, k) refl)
]

transition_row :
    (id : ℕ) (target : MissionStatus) (r e : Option Fields) (db : Db) (m : Mission)
    → mission_row id db ≡ some m
    → allowed_transition m.status target ≡ true
    → mission_row id (transition id target r e db).1 ≡ some (moved target r e m)
unfolding moved
transition_row id target r e db m row t = rw (transition_done id target r e db m row t) (
    mission_row-status_change id target m (put_mission (moved target r e m) db)
    ∙ mission_row-put_copy id id m (moved target r e m) db row refl
    ∙ (let here : (id == id) ≡ true = ground arith in rw here refl))

give_back-HasRow :
    (id : ℕ) (lease_owner : Option String) (db : Db)
    → HasRow id IsIdle db
    → HasRow id IsIdle (give_back id lease_owner db).1
unfolding give_back
give_back-HasRow id none db h = h
give_back-HasRow id (some w) db h = elim (Result-cases (release_code_change_lease id w db).0) [
  | inl (e, k) ↦ rw (◌>>=◌, k) (release-HasRow id IsIdle id w db (λ m q. keeps m q) h)
  | inr (a, k) ↦ rw (◌>>=◌, k) (release-HasRow id IsIdle id w db (λ m q. keeps m q) h)
]
  where
    keeps : (m : Mission) → IsIdle m → IsIdle (updated (may_release id w) drop_lease m)
    keeps m q = λ s. q (ground (arith, s))

moved-IsIdle :
    (target : MissionStatus) (r e : Option Fields) (m : Mission)
    → target ≢ MissionStatus.running
    → IsIdle (moved target r e m)
unfolding moved
moved-IsIdle target r e m n = n

target_idle : (result : CodeChangeResult) → target_status result ≢ MissionStatus.running
unfolding target_status
target_idle result s = ground (arith, s)

same_status-eq : (a b : MissionStatus) → same_status a b ≡ true → a ≡ b
same_status-eq a b h = ground arith

may_settle :
    (result : CodeChangeResult) (s : MissionStatus)
    → same_status s MissionStatus.running ≡ true
    → allowed_transition s (target_status result) ≡ true
unfolding target_status allowed_transition
may_settle result s h = ground arith

settle-HasRow :
    (id : ℕ) (repository : String) (result : CodeChangeResult) (db : Db) (x : Mission)
    → (settle id repository result db).0 ≡ ok x
    → HasRow id IsIdle (settle id repository result db).1
unfolding settle
settle-HasRow id repository result db x h = elim (Option-cases (mission_row id db)) [
  | inl n ↦ cc (rw (◌>>=◌, get_mission, n) at h)
  | inr (m, row) ↦ elim (Bool-cases (same_status m.status (target_status result))) [
    | inl t ↦
        let e = same_status-eq m.status (target_status result) t in
        rw (◌>>=◌, get_mission, row)
          (rw t (
            record_result-HasRow id IsIdle id (result_payload repository result) db (λ y q. q)
              (m, row, λ s. target_idle result (sym e ∙ s))))
    | inr t ↦ elim (Bool-cases (same_status m.status MissionStatus.running)) [
      | inl u ↦
          rw (◌>>=◌, get_mission, row)
            (rw (t, u)
              (
                moved (target_status result) (some (result_payload repository result)) none m,
                transition_row id (target_status result) (some (result_payload repository result))
                    none db m row (may_settle result m.status u),
                moved-IsIdle (target_status result) (some (result_payload repository result)) none m
                    (target_idle result),
              ))
      | inr u ↦ let k = rw (◌>>=◌, get_mission, row) at h in cc (rw (t, u) at k)
    ]
  ]
]

fails :
    (s : MissionStatus)
    → same_status s MissionStatus.running ≡ true
    → allowed_transition s MissionStatus.failed ≡ true
unfolding allowed_transition
fails s h = ground arith

-- After the handler the mission does not run.
give_up-Rests :
    (id : ℕ) (lease_owner : Option String) (db : Db) → Rests id (give_up id lease_owner db).1
unfolding give_up
give_up-Rests id lease_owner db = elim (Option-cases (mission_row id db)) [
  | inl n ↦ rw (◌>>=◌, get_mission, n) (inl n)
  | inr (m, row) ↦ elim (Bool-cases (same_status m.status MissionStatus.running)) [
    | inr u ↦
        rw (◌>>=◌, get_mission, row)
          (rw u (inr (give_back-HasRow id lease_owner db (m, row, λ s. ground (arith, u, s)))))
    | inl u ↦
        let failed =
          transition_done id MissionStatus.failed none failure db m row (fails m.status u) in
        let after =
          transition_row id MissionStatus.failed none failure db m row (fails m.status u) in
        rw (◌>>=◌, get_mission, row)
          (rw u (
            rw (◌>>=◌, failed)
              (inr (
                give_back-HasRow id lease_owner _ (
                  moved MissionStatus.failed none failure m,
                  ap (λ p. mission_row id p.1) (sym failed) ∙ after,
                  moved-IsIdle MissionStatus.failed none failure m (λ s. ground (arith, s)),
                )))))
  ]
]

or_else-Rests :
    {A : Type 0} (id : ℕ) (m : Exec Db A) (h : Exec Db (Unit {0})) (db : Db)
    → ((a : A) → (m db).0 ≡ ok a → Rests id (m db).1)
    → ((x : Db) → Rests id (h x).1)
    → Rests id (or_else m h db).1
unfolding or_else
or_else-Rests id m h db p q = elim (Result-cases (m db).0) [
  | inr (a, k) ↦ rw (or_else, k) (p a k)
  | inl (e, k) ↦ elim (Result-cases (h (m db).1).0) [
    | inl (x, l) ↦ rw (or_else, k) (rw l (q (m db).1))
    | inr (u, l) ↦ rw (or_else, k) (rw l (q (m db).1))
  ]
]

module _ (service : CodeChangeService) (runner_factory : String → Result DeliveryRunner)
    (clock : ℕ → ℕ) where
  work-Rests :
      (id : ℕ) (repository : String) (lease_owner : Option String) (lease_seconds : ℕ) (db : Db)
      (a : CodeChangeResult)
      → (work service runner_factory clock id repository lease_owner lease_seconds db).0 ≡ ok a
      → Rests id (work service runner_factory clock id repository lease_owner lease_seconds db).1
  unfolding work
  work-Rests id repository lease_owner lease_seconds db a h =
      let m =
        run_existing_mission service runner_factory clock id repository lease_owner lease_seconds
          true in
      let (result, h1, e1) = bind_ok m _ db h in
      let n = settle id repository result >> give_back id lease_owner in
      let (u, h2, e2) = bind_ok n (λ _. pure result) (m db).1 (ap (λ p. p.0) (sym e1) ∙ h) in
      let (x, h3, e3) =
        bind_ok (settle id repository result) (λ _. give_back id lease_owner) (m db).1 h2 in
      inr (
        subst (HasRow id IsIdle) (ap (λ p. p.1) (sym (e1 ∙ e2))) (
          subst (HasRow id IsIdle) (ap (λ p. p.1) (sym e3)) (
            give_back-HasRow id lease_owner (settle id repository result (m db).1).1
              (settle-HasRow id repository result (m db).1 x h3))))

  -- A code change that `process_queued_candidate` has taken up, with or without a lease, does not
  -- run when the call ends, whatever the runner does to the tables and however it fails: the
  -- mission waits for approval, is completed or has failed, or others have moved or removed it.
  pub process-Rests :
      (mission : Mission) (repository : String) (lease_owner : Option String) (lease_seconds : ℕ)
      (db : Db)
      → (take_up clock mission lease_owner lease_seconds mission.status db).0 ≡ ok tt
      → Rests mission.id
          (process service runner_factory clock mission repository lease_owner lease_seconds db).1
  unfolding process
  process-Rests mission repository lease_owner lease_seconds db h =
      rw (◌>>=◌, h)
        (or_else-Rests mission.id
          (work service runner_factory clock mission.id repository lease_owner lease_seconds)
          (give_up mission.id lease_owner)
          (take_up clock mission lease_owner lease_seconds mission.status db).1
          (λ a k. work-Rests mission.id repository lease_owner lease_seconds _ a k)
          (λ x. give_up-Rests mission.id lease_owner x))
