-- ===== src/Delivery/Sound.antt =====
-- delivery/service.py: what the columns of a delivery say about its path, whatever was called.
use ai_hq.Prelude.{
  ℕ, String, true, ◌&&◌, Option, none, some, ◌≡◌, refl, sym, ap, subst, ◌∙◌, inl, inr, arith,
  Bool-cases, some_cancel, ◌⊎◌, str_eq, eq_iff,
}
use ai_hq.Tables.{Db}
use ai_hq.Tables.Approvals.{ApprovalRequest, approved}
use ai_hq.Tables.Deliveries.{Delivery, qa}
use ai_hq.Approvals.Requests.{request_row}
use ai_hq.Delivery.Identity.{is_set, is_candidate_branch, is_git_sha, release_id_valid}
use ai_hq.Delivery.Proposals.{delivery_row}
use ai_hq.Delivery.Releases.{is_published}
use ai_hq.Delivery.Inversions.{IsWaiting}
use ai_hq.Delivery.Steps.{
  IsReleasable, IsUnpublished, IsUndeployed, IsProposal, Handoff, fail_qa, pass_qa, publish, deploy,
  restore, send_back, Advance, stay, propose, advance,
}

-- A change that waits with its QA passed and its request approved.
pub record IsApproved (db : Db) (d : Delivery) : Type 0 where
  pub reference : ℕ
  pub request : ApprovalRequest
  pub waiting : IsWaiting d.change_ref d reference
  pub row : request_row reference db ≡ some request
  pub state : request.state ≡ approved

-- A release stands on an approval; a deployment on a publication; a rollback on a deployment whose
-- history names its release.
pub record IsSound (db : Db) (d : Delivery) : Type 0 where
  pub publication : IsUnpublished d ⊎ ((is_published d ≡ true) × IsApproved db d)
  pub deployment :
      IsUndeployed d ⊎ ((is_published d ≡ true) × (is_set d.deployment_release_id ≡ true))
  pub rollback :
      (d.rollback_release_id ≡ none)
      ⊎ ((is_set d.deployment_release_id ≡ true)
          × (d.rollback_release_id ≡ d.deployment_prior_release_id))

abbrev pub AllSound : Db → Type 0
AllSound db = (k : ℕ) (d : Delivery) → delivery_row k db ≡ some d → IsSound db d

-- An approved request stays as it is.
abbrev pub Persists : Db → Db → Type 0
Persists db db' =
    (k : ℕ) (r : ApprovalRequest)
    → r.state ≡ approved
    → request_row k db ≡ some r
    → request_row k db' ≡ some r

-- What has been published is not in QA.
pub early : (db : Db) (d : Delivery) → d.stage ≡ qa → IsSound db d → IsUnpublished d
early db d q s = elim s.publication [
  | inl u ↦ u
  | inr (p, a) ↦ let w = a.waiting.stage in absurd (ground (arith, q))
]

-- A text that the checks of a publication accept is not empty.
branch_set : (b : String) → is_candidate_branch b ≡ true → is_set (some b) ≡ true
unfolding is_candidate_branch
branch_set b h = elim (Bool-cases (str_eq b "")) [
  | inr t ↦ rw t refl
  | inl t ↦ cc (rw ((eq_iff b "").0 t) at h)
]

sha_set : (s : String) → is_git_sha s ≡ true → is_set (some s) ≡ true
unfolding is_git_sha
sha_set s h = elim (Bool-cases (str_eq s "")) [
  | inr t ↦ rw t refl
  | inl t ↦ cc (rw ((eq_iff s "").0 t) at h)
]

release_set : (s : String) → release_id_valid s ≡ true → is_set (some s) ≡ true
unfolding release_id_valid
release_set s h = ground arith

IsProposal-IsSound : (db : Db) (d : Delivery) → IsProposal d → IsSound db d
IsProposal-IsSound db d p = record {
  publication = inl p.unpublished;
  deployment = inl p.undeployed;
  rollback = inl p.unrestored;
}

-- The same approval stands behind a changed copy.
IsApproved-copy :
    (db : Db) (d d' : Delivery)
    → d'.stage ≡ d.stage
    → d'.qa_result ≡ d.qa_result
    → d'.approval_reference ≡ d.approval_reference
    → IsApproved db d
    → IsApproved db d'
IsApproved-copy db d d' s q r a = record {
  reference = a.reference;
  request = a.request;
  waiting = record {
    change = refl;
    stage = s ∙ a.waiting.stage;
    qa = q ∙ a.waiting.qa;
    referred = r ∙ a.waiting.referred;
  };
  row = a.row;
  state = a.state;
}

module _ {db db' : Db} (persists : Persists db db') where
  IsApproved-later : (d : Delivery) → IsApproved db d → IsApproved db' d
  IsApproved-later d a = record {
    reference = a.reference;
    request = a.request;
    waiting = a.waiting;
    row = persists a.reference a.request a.state a.row;
    state = a.state;
  }

  IsSound-later : (d : Delivery) → IsSound db d → IsSound db' d
  IsSound-later d s = record {
    publication = elim s.publication [ inl u ↦ inl u | inr (p, a) ↦ inr (p, IsApproved-later d a) ];
    deployment = s.deployment;
    rollback = s.rollback;
  }

  approves : (now : ℕ) (d : Delivery) → IsReleasable now db d → IsApproved db' d
  approves now d rel = record {
    reference = rel.reference;
    request = rel.request;
    waiting = rel.waiting;
    row = persists rel.reference rel.request rel.consent.state rel.row;
    state = rel.consent.state;
  }

  pub Handoff-IsSound : (d d' : Delivery) → Handoff db d d' → IsSound db d → IsSound db' d'
  Handoff-IsSound d d' (fail_qa e q) s = record {
    publication =
        inl (
          let u = early db d q s in record { branch = u.branch; commit = u.commit; tree = u.tree });
    deployment = elim s.deployment [
      | inl u ↦ inl (record { release = u.release; prior = u.prior })
      | inr p ↦ inr p
    ];
    rollback = s.rollback;
  }
  Handoff-IsSound d d' (pass_qa e q) s = record {
    publication =
        inl (
          let u = early db d q s in record { branch = u.branch; commit = u.commit; tree = u.tree });
    deployment = elim s.deployment [
      | inl u ↦ inl (record { release = u.release; prior = u.prior })
      | inr p ↦ inr p
    ];
    rollback = s.rollback;
  }
  Handoff-IsSound d d' (publish now b c t hb hc ht rel u) s =
      let a = approves now d rel in
      let set : (is_set (some b) && is_set (some c) && is_set (some t)) ≡ true =
        ground (arith, branch_set b hb, sha_set c hc, sha_set t ht) in
      record {
        publication = inr (set, IsApproved-copy db' d _ refl refl refl a);
        deployment = elim s.deployment [
          | inl v ↦ inl (record { release = v.release; prior = v.prior })
          | inr (p, q) ↦ inr (set, q)
        ];
        rollback = s.rollback;
      }
  Handoff-IsSound d d' (deploy now r p hr rel pub' u) s =
      let a = approves now d rel in
      record {
        publication = inr (pub', IsApproved-copy db' d _ refl refl refl a);
        deployment = inr (pub', release_set r hr);
        rollback = elim s.rollback [
          | inl n ↦ inl n
          | inr (x, e) ↦ inr (release_set r hr, absurd (let n = u.release in ground (arith, x)))
        ];
      }
  Handoff-IsSound d d' (restore now r rel pub' dep pr n) s =
      let a = approves now d rel in
      record {
        publication = inr (pub', IsApproved-copy db' d _ refl refl refl a);
        deployment = inr (pub', dep);
        rollback = inr (dep, sym pr);
      }
  Handoff-IsSound d d' (send_back k r w ref row e) s = record {
    publication = elim s.publication [
      | inl u ↦ inl (record { branch = u.branch; commit = u.commit; tree = u.tree })
      | inr (p, a) ↦ absurd (
          let at_k : a.reference ≡ k = some_cancel (sym a.waiting.referred ∙ ref) in
          let same : a.request ≡ r =
            some_cancel (sym a.row ∙ ap (λ j. request_row j db) at_k ∙ row) in
          let st : r.state ≡ approved =
            subst (λ (y : ApprovalRequest). y.state ≡ approved) same a.state in
          elim e [ inl x ↦ ground (arith, st, x) | inr x ↦ ground (arith, st, x) ])
    ];
    deployment = elim s.deployment [
      | inl u ↦ inl (record { release = u.release; prior = u.prior })
      | inr p ↦ inr p
    ];
    rollback = s.rollback;
  }

  pub Advance-IsSound :
      {o o' : Option Delivery}
      → Advance db o o'
      → ((d : Delivery) → o ≡ some d → IsSound db d)
      → (d : Delivery) → o' ≡ some d
      → IsSound db' d
  Advance-IsSound (stay o) s d e = IsSound-later d (s d e)
  Advance-IsSound (propose x p) s d e =
      IsProposal-IsSound db' d (subst IsProposal (some_cancel e) p)
  Advance-IsSound (advance x x' step) s d e =
      subst (λ y. IsSound db' y) (some_cancel e) (Handoff-IsSound x x' step (s x refl))
