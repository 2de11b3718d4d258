-- ===== src/Delivery/Releasable.antt =====
-- delivery/service.py: what a change is when the checks of a release pass.
use ai_hq.Prelude.{
  ℕ, String, true, Option, none, some, ◌≡◌, sym, ap, subst, inl, inr, Bool-cases, eq_iff,
}
use ai_hq.Prelude.Result.{Result-cases, ok, ok_cancel}
use ai_hq.Tables.{Db}
use ai_hq.Tables.Approvals.{ApprovalRequest}
use ai_hq.Tables.Deliveries.{Delivery}
use ai_hq.Delivery.Identity.{is_set, same_text}
use ai_hq.Delivery.Proposals.{delivery_row, handoff}
use ai_hq.Delivery.Releases.{
  is_published, waiting_check, approval_check, publication_check, deployment_check, rollback_check,
}
use ai_hq.Delivery.Inversions.{
  IsConsent, IsWaiting, delivery_row_mission, handoff-eq-ok, waiting_check-eq-ok,
  approval_check-eq-ok,
}
use ai_hq.Delivery.Steps.{IsReleasable}

releasable :
    (what : String) (now id : ℕ) (change_ref : String) (reference : ℕ) (db : Db) (d : Delivery)
    (r : ApprovalRequest)
    → delivery_row id db ≡ some d
    → waiting_check what change_ref d ≡ ok reference
    → approval_check what now id change_ref reference db ≡ ok r
    → IsReleasable now db d
releasable what now id change_ref reference db d r row w a =
    let waiting = waiting_check-eq-ok what change_ref d w in
    let (asked, consent) = approval_check-eq-ok what now id change_ref reference db a in
    let own = delivery_row_mission id db row in
    record {
      reference = reference;
      request = r;
      waiting = subst (λ c. IsWaiting c d reference) (sym waiting.change) waiting;
      row = asked;
      consent =
          subst (λ c. IsConsent now d.mission_id c r) (sym waiting.change)
            (subst (λ i. IsConsent now i change_ref r) (sym own) consent);
    }

pub publication_check-eq-ok :
    (now id : ℕ) (change_ref : String) (db : Db) (d : Delivery)
    → publication_check now id change_ref db ≡ ok d
    → (delivery_row id db ≡ some d) × IsReleasable now db d
unfolding publication_check
publication_check-eq-ok now id change_ref db d h = elim (Result-cases (handoff id db)) [
  | inl (x, e) ↦ cc (rw e at h)
  | inr ((m, d'), e) ↦
      let (hm, hd) = handoff-eq-ok id db e in
      elim (Result-cases (waiting_check "publication" change_ref d')) [
        | inl (x, e1) ↦ cc (rw (e, e1) at h)
        | inr (k, e1) ↦ elim (Result-cases (approval_check "publication" now id change_ref k db)) [
          | inl (x, e2) ↦ cc (rw (e, e1, e2) at h)
          | inr (r, e2) ↦
              let same : d' ≡ d = ok_cancel (rw (e, e1, e2) at h) in
              subst (λ y. (delivery_row id db ≡ some y) × IsReleasable now db y) same
                (hd, releasable "publication" now id change_ref k db d' r hd e1 e2)
        ]
      ]
]

pub deployment_check-eq-ok :
    (now id : ℕ) (change_ref : String) (db : Db) (d : Delivery)
    → deployment_check now id change_ref db ≡ ok d
    → (delivery_row id db ≡ some d) × IsReleasable now db d × (is_published d ≡ true)
unfolding deployment_check
deployment_check-eq-ok now id change_ref db d h = elim (Result-cases (handoff id db)) [
  | inl (x, e) ↦ cc (rw e at h)
  | inr ((m, d'), e) ↦
      let (hm, hd) = handoff-eq-ok id db e in
      elim (Result-cases (waiting_check "deployment" change_ref d')) [
        | inl (x, e1) ↦ cc (rw (e, e1) at h)
        | inr (k, e1) ↦ elim (Bool-cases (is_published d')) [
          | inr t ↦ cc (rw (e, e1, t) at h)
          | inl t ↦ elim (Result-cases (approval_check "deployment" now id change_ref k db)) [
            | inl (x, e2) ↦ cc (rw (e, e1, t, e2) at h)
            | inr (r, e2) ↦
                let same : d' ≡ d = ok_cancel (rw (e, e1, t, e2) at h) in
                subst
                  (λ y.
                    (delivery_row id db ≡ some y) × IsReleasable now db y × (is_published y ≡ true))
                  same (hd, releasable "deployment" now id change_ref k db d' r hd e1 e2, t)
          ]
        ]
      ]
]

-- A deployed change whose trusted history names the release to go back to.
pub record IsRestorable (release_id : String) (d : Delivery) : Type 0 where
  pub published : is_published d ≡ true
  pub deployed : is_set d.deployment_release_id ≡ true
  pub prior : d.deployment_prior_release_id ≡ some release_id

prior_text :
    (release_id : String) (o : Option String)
    → same_text o (some release_id) ≡ true
    → o ≡ some release_id
prior_text release_id none h = cc
prior_text release_id (some s) h = ap some ((eq_iff s release_id).0 h)

pub rollback_check-eq-ok :
    (now id : ℕ) (change_ref release_id : String) (db : Db) (d : Delivery)
    → rollback_check now id change_ref release_id db ≡ ok d
    → (delivery_row id db ≡ some d) × IsReleasable now db d × IsRestorable release_id d
unfolding rollback_check
rollback_check-eq-ok now id change_ref release_id db d h = elim (Result-cases (handoff id db)) [
  | inl (x, e) ↦ cc (rw e at h)
  | inr ((m, d'), e) ↦
      let (hm, hd) = handoff-eq-ok id db e in
      elim (Result-cases (waiting_check "rollback" change_ref d')) [
        | inl (x, e1) ↦ cc (rw (e, e1) at h)
        | inr (k, e1) ↦ elim (Bool-cases (is_published d')) [
          | inr t ↦ cc (rw (e, e1, t) at h)
          | inl t ↦ elim (Bool-cases (is_set d'.deployment_release_id)) [
            | inr u ↦ cc (rw (e, e1, t, u) at h)
            | inl u ↦ elim (Bool-cases (is_set d'.deployment_prior_release_id)) [
              | inr v ↦ cc (rw (e, e1, t, u, v) at h)
              | inl v ↦
                  elim (Bool-cases (same_text d'.deployment_prior_release_id (some release_id))) [
                    | inr w ↦ cc (rw (e, e1, t, u, v, w) at h)
                    | inl w ↦
                        elim (Result-cases (approval_check "rollback" now id change_ref k db)) [
                          | inl (x, e2) ↦ cc (rw (e, e1, t, u, v, w, e2) at h)
                          | inr (r, e2) ↦
                              let same : d' ≡ d = ok_cancel (rw (e, e1, t, u, v, w, e2) at h) in
                              subst
                                (λ y.
                                  (delivery_row id db ≡ some y)
                                  × IsReleasable now db y
                                  × IsRestorable release_id y)
                                same
                                (
                                  hd,
                                  releasable "rollback" now id change_ref k db d' r hd e1 e2,
                                  record {
                                    published = t;
                                    deployed = u;
                                    prior = prior_text release_id d'.deployment_prior_release_id w;
                                  },
                                )
                        ]
                  ]
            ]
          ]
        ]
      ]
]
