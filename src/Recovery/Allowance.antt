-- ===== src/Recovery/Allowance.antt =====
-- recovery/service.py: when an incident may be recovered.
use ai_hq.Prelude.{
  ℕ, ◌+◌, ◌≤◌, ◌<◌, true, false, some, none, eq_iff, ◌≡◌, ◌≢◌, ◌↔◌, refl, arith, inl, inr,
  Option-cases,
}
use ai_hq.Prelude.Rows.{row_count}
use ai_hq.Prelude.Rows.Counts.{Counted, row_count-Counted, Counted-unique}
use ai_hq.Tables.Recovery.{RecoveryDb, RecoveryIncident, RecoveryAttempt, recovery_pending}
use ai_hq.Recovery.Incidents.{RecoveryService}
use ai_hq.Recovery.Claims.{judge_incident, is_recent_real, is_cooling}

-- A real attempt on the component of the incident within the window.
pub record IsRecentReal (service : RecoveryService) (now : ℕ) (i : RecoveryIncident)
    (a : RecoveryAttempt) : Type 0 where
  pub target : a.target ≡ i.target
  pub component : a.component ≡ i.component
  pub real : a.simulated ≡ false
  pub recent : now ≤ a.attempted_at + service.budget_window_seconds

-- The incident is open and waits for a recovery, the real attempts on its component within the
-- window are `real_attempts` and below the budget, and its last real attempt lies a cooldown back.
pub record MayAttempt (service : RecoveryService) (now : ℕ) (i : RecoveryIncident) (db : RecoveryDb)
    : Type 0 where
  pub is_open : i.active_key ≢ none
  pub waiting : i.state ≡ recovery_pending
  pub real_attempts : ℕ
  pub counted : Counted (IsRecentReal service now i) db.attempts real_attempts
  pub within : real_attempts < service.attempt_budget
  pub cooled : (t : ℕ) → i.last_recovery_attempt_at ≡ some t → t + service.cooldown_seconds ≤ now

is_recent_real-IsRecentReal :
    (service : RecoveryService) (now : ℕ) (i : RecoveryIncident) (a : RecoveryAttempt)
    → (is_recent_real service now i a ≡ true) ↔ IsRecentReal service now i a
is_recent_real-IsRecentReal service now i a = (
  λ h. record {
    target = (eq_iff a.target i.target).0 (ground (arith, h));
    component = (eq_iff a.component i.component).0 (ground (arith, h));
    real = ground (arith, h);
    recent = ground (arith, h);
  },
  λ r.
      let t = (eq_iff a.target i.target).1 r.target in
      let c = (eq_iff a.component i.component).1 r.component in
      let s = r.real in let w = r.recent in ground (arith, t, c, s, w),
)

IsRecentReal-row_count :
    (service : RecoveryService) (now : ℕ) (i : RecoveryIncident) (db : RecoveryDb)
    → Counted
        (IsRecentReal service now i)
        db.attempts
        (row_count (is_recent_real service now i) db.attempts)
IsRecentReal-row_count service now i db =
    row_count-Counted (IsRecentReal service now i) (is_recent_real service now i) db.attempts
      (is_recent_real-IsRecentReal service now i)

not_cooling :
    (service : RecoveryService) (now : ℕ) (i : RecoveryIncident)
    → ((t : ℕ) → i.last_recovery_attempt_at ≡ some t → t + service.cooldown_seconds ≤ now)
    → is_cooling service now i ≡ false
not_cooling service now i h = elim (Option-cases i.last_recovery_attempt_at) [
  | inl n ↦ rw n refl
  | inr (t, e) ↦ let le = h t e in rw e (ground (arith, le))
]

-- An incident may be recovered exactly if it is open and pending, the attempts on its target and
-- component that were not simulated and lie within the window are fewer than the budget, and its
-- last real attempt lies at least one cooldown back.
pub judge_incident_iff :
    (service : RecoveryService) (now : ℕ) (i : RecoveryIncident) (db : RecoveryDb)
    → ((judge_incident service now i db).allowed ≡ true) ↔ MayAttempt service now i db
unfolding judge_incident
judge_incident_iff service now i db = (
  λ h. record {
    is_open = ground (arith, h);
    waiting = ground (arith, h);
    real_attempts = row_count (is_recent_real service now i) db.attempts;
    counted = IsRecentReal-row_count service now i db;
    within = ground (arith, h);
    cooled = ground (arith, h);
  },
  λ m.
      let o = m.is_open in
      let w = m.waiting in
      let n = m.within in
      let e =
        Counted-unique (IsRecentReal service now i) (IsRecentReal-row_count service now i db)
          m.counted in
      let c = not_cooling service now i m.cooled in ground (arith, o, w, n, e, c),
)
