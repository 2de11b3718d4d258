-- ===== src/Delivery/Consent.antt =====
-- delivery/service.py: no release is recorded without the approval of a person.
use ai_hq.Prelude.{ℕ, String, Option, some, ◌≡◌, refl, true, inl, inr, Bool-cases}
use ai_hq.Prelude.Result.{Result, Exec, ok, err, is_ok}
use ai_hq.Tables.{Db}
use ai_hq.Tables.Deliveries.{Delivery}
use ai_hq.Delivery.Identity.{is_candidate_branch, is_git_sha, release_id_valid}
use ai_hq.Delivery.Proposals.{delivery_row, after}
use ai_hq.Delivery.Releases.{
  publication_guard, deployment_guard, rollback_guard, published, deployed, rolled_back,
  record_publication, record_deployment, record_rollback, prior_valid, is_published,
}
use ai_hq.Delivery.Steps.{IsReleasable}
use ai_hq.Delivery.Releasable.{
  publication_check-eq-ok, deployment_check-eq-ok, rollback_check-eq-ok, IsRestorable,
}

-- What may be recorded of a release.
pub data Release : Type 0 where
  publication : String → String → String → Release
  deployment : String → Option String → Release
  rollback : String → Release

unfoldable pub record_release : Release → ℕ → ℕ → String → Exec Db Delivery
record_release (publication b c t) now id ref = record_publication now id ref b c t
record_release (deployment r p) now id ref = record_deployment now id ref r p
record_release (rollback r) now id ref = record_rollback now id ref r

-- What has to be true of the change beside its approval.
abbrev pub HasHistory : Release → Delivery → Type 0
HasHistory (publication b c t) d = Unit
HasHistory (deployment r p) d = is_published d ≡ true
HasHistory (rollback r) d = IsRestorable r d

Passed : Release → ℕ → ℕ → Db → Type 0
Passed x now id db =
    (d : Delivery) × (delivery_row id db ≡ some d) × IsReleasable now db d × HasHistory x d

if_ok :
    {A B : Type 0} (P : Type 0) (r : Result A) (f : A → Exec Db B) (db : Db)
    → is_ok (after r f db).0 ≡ true
    → ((a : A) → r ≡ ok a → P)
    → P
if_ok P (ok a) f db h g = g a refl
if_ok P (err e) f db h g = cc

-- A publication, a deployment or a rollback is recorded only of a change whose QA has passed and
-- whose request for exactly this mission and change a person has approved and has not expired;
-- a deployment only once the change is published, and a rollback only to the release that the
-- recorded deployment replaced.
pub release_consented :
    (x : Release) (now id : ℕ) (change_ref : String) (db : Db)
    → is_ok (record_release x now id change_ref db).0 ≡ true
    → (d : Delivery) × (delivery_row id db ≡ some d) × IsReleasable now db d × HasHistory x d
unfolding record_release record_publication record_deployment record_rollback Passed
    publication_guard deployment_guard rollback_guard
release_consented (publication b c t) now id ref db h =
    if_ok (Passed (publication b c t) now id db) (publication_guard now id ref b c t db)
      (published now b c t) db h
      (λ d e. elim (Bool-cases (is_candidate_branch b)) [
        | inr u ↦ cc (rw u at e)
        | inl u ↦ elim (Bool-cases (is_git_sha c)) [
          | inr v ↦ cc (rw (u, v) at e)
          | inl v ↦ elim (Bool-cases (is_git_sha t)) [
            | inr w ↦ cc (rw (u, v, w) at e)
            | inl w ↦
                let (row, rel) = publication_check-eq-ok now id ref db d (rw (u, v, w) at e) in
                (d, row, rel, tt)
          ]
        ]
      ])
release_consented (deployment r p) now id ref db h =
    if_ok (Passed (deployment r p) now id db) (deployment_guard now id ref r p db)
      (deployed now r p) db h
      (λ d e. elim (Bool-cases (release_id_valid r)) [
        | inr u ↦ cc (rw u at e)
        | inl u ↦ elim (Bool-cases (prior_valid p)) [
          | inr v ↦ cc (rw (u, v) at e)
          | inl v ↦
              let (row, rel, pub') = deployment_check-eq-ok now id ref db d (rw (u, v) at e) in
              (d, row, rel, pub')
        ]
      ])
release_consented (rollback r) now id ref db h =
    if_ok (Passed (rollback r) now id db) (rollback_guard now id ref r db) (rolled_back now r) db h
      (λ d e. elim (Bool-cases (release_id_valid r)) [
        | inr u ↦ cc (rw u at e)
        | inl u ↦
            let (row, rel, res) = rollback_check-eq-ok now id ref r db d (rw u at e) in
            (d, row, rel, res)
      ])
