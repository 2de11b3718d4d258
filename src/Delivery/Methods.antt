-- ===== src/Delivery/Methods.antt =====
-- delivery/service.py: recording a release takes one step of its change, or none.
use ai_hq.Prelude.{
  ℕ, String, true, Option, none, some, ◌≡◌, refl, inl, inr, arith, Bool-cases, is_none, not, ◌&&◌,
}
use ai_hq.Prelude.Result.{Result-cases}
use ai_hq.Tables.{Db}
use ai_hq.Tables.Deliveries.{Delivery}
use ai_hq.Delivery.Identity.{is_candidate_branch, is_git_sha, release_id_valid, same_text}
use ai_hq.Delivery.Proposals.{delivery_row, put_delivery}
use ai_hq.Delivery.Releases.{
  publication_guard, deployment_guard, rollback_guard, is_published, publication_check, published,
  record_publication, deployment_check, deployed, record_deployment, rollback_check, rolled_back,
  record_rollback, prior_valid,
}
use ai_hq.Delivery.Steps.{IsReleasable, Advance, stay, publish, deploy, restore, put-Advance}
use ai_hq.Delivery.Releasable.{
  publication_check-eq-ok, deployment_check-eq-ok, rollback_check-eq-ok, IsRestorable,
}

pub is_none-eq : {A : Type 0} (o : Option A) → is_none o ≡ true → o ≡ none
is_none-eq none h = refl
is_none-eq (some a) h = cc

published-Advance :
    (k now id : ℕ) (branch commit tree : String) (db : Db) (d : Delivery)
    → delivery_row id db ≡ some d
    → is_candidate_branch branch ≡ true
    → is_git_sha commit ≡ true
    → is_git_sha tree ≡ true
    → IsReleasable now db d
    → Advance db (delivery_row k db) (delivery_row k (published now branch commit tree d db).1)
unfolding published put_delivery delivery_row
published-Advance k now id branch commit tree db d row hb hc ht rel =
    elim (Bool-cases
      (is_none d.published_branch && is_none d.published_commit && is_none d.published_tree)) [
        | inl t ↦ rw t (
            put-Advance k id db d _ row (
              publish now branch commit tree hb hc ht rel (record {
                branch = is_none-eq d.published_branch (ground arith);
                commit = is_none-eq d.published_commit (ground arith);
                tree = is_none-eq d.published_tree (ground arith);
              })))
        | inr t ↦
            rw t
              (elim (Bool-cases (
                same_text d.published_branch (some branch)
                && same_text d.published_commit (some commit)
                && same_text d.published_tree (some tree)
                && not (is_none d.published_at))) [
                  | inl u ↦ rw u (stay (delivery_row k db))
                  | inr u ↦ rw u (stay (delivery_row k db))
                ])
      ]

pub record_publication-Advance :
    (k now id : ℕ) (change_ref branch commit tree : String) (db : Db)
    → Advance db
        (delivery_row k db)
        (delivery_row k (record_publication now id change_ref branch commit tree db).1)
unfolding record_publication publication_guard
record_publication-Advance k now id change_ref branch commit tree db =
    elim (Bool-cases (is_candidate_branch branch)) [
      | inr t ↦ rw t (stay (delivery_row k db))
      | inl t ↦ elim (Bool-cases (is_git_sha commit)) [
        | inr u ↦ rw (t, u) (stay (delivery_row k db))
        | inl u ↦ elim (Bool-cases (is_git_sha tree)) [
          | inr v ↦ rw (t, u, v) (stay (delivery_row k db))
          | inl v ↦ elim (Result-cases (publication_check now id change_ref db)) [
            | inl (x, e) ↦ rw (t, u, v, e) (stay (delivery_row k db))
            | inr (d, e) ↦
                let (row, rel) = publication_check-eq-ok now id change_ref db d e in
                rw (t, u, v, e) (published-Advance k now id branch commit tree db d row t u v rel)
          ]
        ]
      ]
    ]

deployed-Advance :
    (k now id : ℕ) (release_id : String) (prior : Option String) (db : Db) (d : Delivery)
    → delivery_row id db ≡ some d
    → release_id_valid release_id ≡ true
    → IsReleasable now db d
    → is_published d ≡ true
    → Advance db (delivery_row k db) (delivery_row k (deployed now release_id prior d db).1)
unfolding deployed put_delivery delivery_row
deployed-Advance k now id release_id prior db d row hr rel pub' =
    elim (Bool-cases (is_none d.deployment_release_id && is_none d.deployment_prior_release_id)) [
      | inl t ↦ rw t (
          put-Advance k id db d _ row (
            deploy now release_id prior hr rel pub' (record {
              release = is_none-eq d.deployment_release_id (ground arith);
              prior = is_none-eq d.deployment_prior_release_id (ground arith);
            })))
      | inr t ↦
          rw t
            (elim (Bool-cases (
              same_text d.deployment_release_id (some release_id)
              && same_text d.deployment_prior_release_id prior
              && not (is_none d.deployed_at))) [
                | inl u ↦ rw u (stay (delivery_row k db))
                | inr u ↦ rw u (stay (delivery_row k db))
              ])
    ]

pub record_deployment-Advance :
    (k now id : ℕ) (change_ref release_id : String) (prior : Option String) (db : Db)
    → Advance db
        (delivery_row k db)
        (delivery_row k (record_deployment now id change_ref release_id prior db).1)
unfolding record_deployment deployment_guard
record_deployment-Advance k now id change_ref release_id prior db =
    elim (Bool-cases (release_id_valid release_id)) [
      | inr t ↦ rw t (stay (delivery_row k db))
      | inl t ↦ elim (Bool-cases (prior_valid prior)) [
        | inr u ↦ rw (t, u) (stay (delivery_row k db))
        | inl u ↦ elim (Result-cases (deployment_check now id change_ref db)) [
          | inl (x, e) ↦ rw (t, u, e) (stay (delivery_row k db))
          | inr (d, e) ↦
              let (row, rel, p) = deployment_check-eq-ok now id change_ref db d e in
              rw (t, u, e) (deployed-Advance k now id release_id prior db d row t rel p)
        ]
      ]
    ]

rolled_back-Advance :
    (k now id : ℕ) (release_id : String) (db : Db) (d : Delivery)
    → delivery_row id db ≡ some d
    → IsReleasable now db d
    → IsRestorable release_id d
    → Advance db (delivery_row k db) (delivery_row k (rolled_back now release_id d db).1)
unfolding rolled_back put_delivery delivery_row
rolled_back-Advance k now id release_id db d row rel r =
    elim (Bool-cases (is_none d.rollback_release_id && is_none d.rolled_back_at)) [
      | inl t ↦ rw t (
          put-Advance k id db d _ row (
            restore now release_id rel r.published r.deployed r.prior
              (is_none-eq d.rollback_release_id (ground arith))))
      | inr t ↦
          rw t
            (elim (Bool-cases (
              same_text d.rollback_release_id (some release_id)
              && not (is_none d.rolled_back_at))) [
                | inl u ↦ rw u (stay (delivery_row k db))
                | inr u ↦ rw u (stay (delivery_row k db))
              ])
    ]

pub record_rollback-Advance :
    (k now id : ℕ) (change_ref release_id : String) (db : Db)
    → Advance db
        (delivery_row k db)
        (delivery_row k (record_rollback now id change_ref release_id db).1)
unfolding record_rollback rollback_guard
record_rollback-Advance k now id change_ref release_id db =
    elim (Bool-cases (release_id_valid release_id)) [
      | inr t ↦ rw t (stay (delivery_row k db))
      | inl t ↦ elim (Result-cases (rollback_check now id change_ref release_id db)) [
        | inl (x, e) ↦ rw (t, e) (stay (delivery_row k db))
        | inr (d, e) ↦
            let (row, rel, r) = rollback_check-eq-ok now id change_ref release_id db d e in
            rw (t, e) (rolled_back-Advance k now id release_id db d row rel r)
      ]
    ]
