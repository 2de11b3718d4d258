-- ===== src/Missions/Moves.antt =====
-- What the writing operations of missions/service.py do to the row of a mission, and to its
-- status in particular.
use ai_hq.Prelude.{
  ℕ, Bool, true, false, Option, none, some, ◌==◌, if◌then◌else◌, ◌≡◌, refl, sym, ap, subst, ◌∙◌,
  inl, inr, arith, Bool-cases, Option-cases, some_cancel,
}
use mathlib.Core.Option
use ai_hq.Prelude.Result.{ok, err, key_error, value_error}
use ai_hq.Prelude.Rows.{update_where}
use ai_hq.Prelude.Rows.Finds.{find-update_where, find_test, updated}
use ai_hq.Json.{Fields}
use ai_hq.Tables.{Db}
use ai_hq.Tables.Missions.{Mission, MissionStatus}
use ai_hq.Missions.Transitions.{allowed_transition, is_terminal}
use ai_hq.Missions.Lifecycle.{has_id, mission_row, put_mission, moved, status_change, transition}

pub mission_row_id : (id : ℕ) (db : Db) {m : Mission} → mission_row id db ≡ some m → m.id ≡ id
unfolding mission_row
mission_row_id id db {m} h = let t = find_test (has_id id) db.missions h in ground (arith, t)

-- A flush replaces the row of its id and no other.
pub mission_row-put :
    (id : ℕ) (m : Mission) (db : Db)
    → mission_row id (put_mission m db)
      ≡ Option.map (updated (has_id m.id) (λ _. m)) (mission_row id db)
unfolding mission_row put_mission
mission_row-put id m db =
    find-update_where (has_id id) (has_id m.id) (λ _. m) db.missions (λ x. ground arith)

pub mission_row-status_change :
    (id : ℕ) (target : MissionStatus) (m : Mission) (db : Db)
    → mission_row id (status_change target m db) ≡ mission_row id db
unfolding mission_row status_change
mission_row-status_change id target m db = refl

-- An update of the missions that keeps their ids.
pub mission_row-update :
    (id : ℕ) (p : Mission → Bool) (f : Mission → Mission) (db : Db)
    → ((x : Mission) → (updated p f x).id ≡ x.id)
    → mission_row id (record db { missions = update_where p f db.missions })
      ≡ Option.map (updated p f) (mission_row id db)
unfolding mission_row
mission_row-update id p f db same =
    find-update_where (has_id id) p f db.missions (λ x. ap (λ k. k == id) (same x))

-- The row after the flush of a changed copy of a row.
pub mission_row-put_copy :
    (id mission_id : ℕ) (m changed : Mission) (db : Db)
    → mission_row mission_id db ≡ some m
    → changed.id ≡ m.id
    → mission_row id (put_mission changed db)
      ≡ (if mission_id == id then some changed else mission_row id db)
mission_row-put_copy id mission_id m changed db h same =
    let known = mission_row_id mission_id db h in
    rw (mission_row-put id changed db) (elim (Option-cases (mission_row id db)) [
      | inl e ↦ rw e (elim (Bool-cases (mission_id == id)) [
        | inl t ↦ ground (arith, t, h, e, subst (λ k. mission_row k db ≡ some m) (eq_of t) h)
        | inr t ↦ rw t refl
      ])
      | inr (x, e) ↦ let own = mission_row_id id db e in rw e (ground (arith, own, known, same))
    ])
  where
    eq_of : (mission_id == id) ≡ true → mission_id ≡ id
    eq_of t = ground arith

-- The mission `id` is there, and its row has the property.
abbrev pub HasRow : ℕ → (Mission → Type 0) → Db → Type 0
HasRow id Q db = (m : Mission) × (mission_row id db ≡ some m) × Q m

pub HasRow-update :
    (id : ℕ) (Q : Mission → Type 0) (p : Mission → Bool) (f : Mission → Mission) (db : Db)
    → ((x : Mission) → (updated p f x).id ≡ x.id)
    → ((x : Mission) → Q x → Q (updated p f x))
    → HasRow id Q db
    → HasRow id Q (record db { missions = update_where p f db.missions })
HasRow-update id Q p f db same keep (m, row, q) =
    (updated p f m, rw (mission_row-update id p f db same) (rw row refl), keep m q)

pub HasRow-put :
    (id mission_id : ℕ) (Q : Mission → Type 0) (m changed : Mission) (db : Db)
    → mission_row mission_id db ≡ some m
    → changed.id ≡ m.id
    → (Q m → Q changed)
    → HasRow id Q db
    → HasRow id Q (put_mission changed db)
HasRow-put id mission_id Q m changed db h same keep (x, row, q) =
    elim (Bool-cases (mission_id == id)) [
      | inl t ↦
          let e : mission_id ≡ id = ground arith in
          let own : m ≡ x = some_cancel (sym h ∙ ap (λ k. mission_row k db) e ∙ row) in
          (
            changed,
            rw (mission_row-put_copy id mission_id m changed db h same, t) refl,
            keep (subst Q (sym own) q),
          )
      | inr t ↦ (x, rw (mission_row-put_copy id mission_id m changed db h same, t) row, q)
    ]

-- The mission `id` is there with the status `s`.
abbrev pub HasStatus : ℕ → MissionStatus → Db → Type 0
HasStatus id s db = HasRow id (λ m. m.status ≡ s) db

-- The three outcomes of `transition`.
module _ (mission_id : ℕ) (target : MissionStatus) (r e : Option Fields) (db : Db) where
  pub transition_missing :
      mission_row mission_id db ≡ none
      → transition mission_id target r e db ≡ (err (key_error "mission not found"), db)
  unfolding transition
  transition_missing h = ground (arith, h)

  pub transition_refused :
      (m : Mission)
      → mission_row mission_id db ≡ some m
      → allowed_transition m.status target ≡ false
      → transition mission_id target r e db ≡ (err (value_error "invalid mission transition"), db)
  unfolding transition
  transition_refused m h t = ground (arith, h, t)

  pub transition_done :
      (m : Mission)
      → mission_row mission_id db ≡ some m
      → allowed_transition m.status target ≡ true
      → transition mission_id target r e db
        ≡ (ok (moved target r e m), status_change target m (put_mission (moved target r e m) db))
  unfolding transition
  transition_done m h t = ground (arith, h, t)

pub terminal_stuck :
    (from target : MissionStatus) → is_terminal from ≡ true → allowed_transition from target ≡ false
unfolding allowed_transition
terminal_stuck from target fin = ground arith

pub transition-HasStatus :
    (id : ℕ) (s : MissionStatus) (mission_id : ℕ) (target : MissionStatus) (r e : Option Fields)
    (db : Db)
    → is_terminal s ≡ true
    → HasStatus id s db
    → HasStatus id s (transition mission_id target r e db).1
unfolding moved
transition-HasStatus id s mission_id target r e db fin h =
    elim (Option-cases (mission_row mission_id db)) [
      | inl n ↦ rw (transition_missing mission_id target r e db n) h
      | inr (m, row) ↦ elim (Bool-cases (allowed_transition m.status target)) [
        | inl t ↦
            let stays = λ (st : m.status ≡ s). terminal_stuck m.status target (rw st fin) in
            let (x, q, st) =
              HasRow-put id mission_id (λ x. x.status ≡ s) m (moved target r e m) db row refl
                (λ st. absurd (cc (stays st))) h in
            rw (transition_done mission_id target r e db m row t)
              (x, mission_row-status_change id target m _ ∙ q, st)
        | inr t ↦ rw (transition_refused mission_id target r e db m row t) h
      ]
    ]
