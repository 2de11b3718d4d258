-- ===== src/CodeChanges/Approved.antt =====
-- code_changes/service.py: what the checks of a release have found when they pass.
use ai_hq.Prelude.{
  ℕ, ◌<◌, String, true, ◌&&◌, some, ◌≡◌, refl, sym, ap, subst, ◌∙◌, inl, inr, arith, Bool-cases,
  Option-cases, eq_iff,
}
use ai_hq.Prelude.Result.{Result-cases, ok, ok_cancel, ◌>>=◌}
use ai_hq.Tables.{Db}
use ai_hq.Tables.Missions.{Mission}
use ai_hq.Tables.Approvals.{ApprovalRequest, ApprovalState, pending, approved, denied, cancelled}
use ai_hq.Tables.Deliveries.{Delivery, DeliveryStage, passed, same_stage}
use ai_hq.Missions.Lifecycle.{mission_row}
use ai_hq.Approvals.Requests.{request_row}
use ai_hq.Delivery.Proposals.{delivery_row, handoff}
use ai_hq.Delivery.Releases.{plans_change}
use ai_hq.Delivery.Decisions.{
  decision_check, decision_applied, returned, apply_human_decision, same_reference,
}
use ai_hq.Delivery.Inversions.{handoff-eq-ok, delivery_row_mission}
use ai_hq.Delivery.Steps.{IsReleasable}
use ai_hq.CodeChanges.Service.{
  release_check, code_change_check, approved_release, is_code_change, repository_of, is_passed,
}

-- The delivery that a decision was applied to, and the request behind it.
pub record IsJudged (now id : ℕ) (change_ref : String) (db : Db) (d : Delivery)
    (state : ApprovalState) : Type 0 where
  pub row : delivery_row id db ≡ some d
  pub stage : d.stage ≡ DeliveryStage.waiting_approval
  pub change : d.change_ref ≡ change_ref
  pub reference : ℕ
  pub referred : d.approval_reference ≡ some reference
  pub request : ApprovalRequest
  pub asked : request_row reference db ≡ some request
  pub mission : request.mission_id ≡ id
  pub target : request.target ≡ d.change_ref
  pub plan : plans_change request.action_plan d.change_ref ≡ true
  pub live : now < request.expires_at
  pub state_of : request.state ≡ state

decision_check-IsJudged :
    (now id reference : ℕ) (change_ref : String) (db : Db) (state : ApprovalState) (m : Mission)
    (d : Delivery)
    → decision_check now id reference change_ref db ≡ ok (state, m, d)
    → IsJudged now id change_ref db d state
unfolding decision_check
decision_check-IsJudged now id reference change_ref db state m d h =
    elim (Result-cases (handoff id db)) [
      | inl (x, e) ↦ cc (rw e at h)
      | inr ((m', d'), e) ↦
          let (hm, hd) = handoff-eq-ok id db e in
          elim (Option-cases (request_row reference db)) [
            | inl n ↦ ground (arith, rw (e, n) at h)
            | inr (r, er) ↦
                let k = rw (e, er) at h in
                let same : d' ≡ d = ground arith in
                subst (λ y. IsJudged now id change_ref db y state) same
                  (record {
                    row = hd;
                    stage = ground arith;
                    change = ground (arith, eq_iff d'.change_ref change_ref);
                    reference = reference;
                    referred = ground arith;
                    request = r;
                    asked = er;
                    mission = ground arith;
                    target = ground (arith, eq_iff r.target d'.change_ref);
                    plan = ground arith;
                    live = ground arith;
                    state_of = ground arith;
                  })
          ]
    ]

IsJudged-IsReleasable :
    (now id : ℕ) (change_ref : String) (db : Db) (d : Delivery)
    → IsJudged now id change_ref db d approved
    → d.qa_result ≡ some passed
    → IsReleasable now db d
IsJudged-IsReleasable now id change_ref db d j q =
    let own = delivery_row_mission id db j.row in
    record {
      reference = j.reference;
      request = j.request;
      waiting = record { change = refl; stage = j.stage; qa = q; referred = j.referred };
      row = j.asked;
      consent = record {
        mission = j.mission ∙ sym own;
        target = j.target;
        plan = j.plan;
        live = j.live;
        state = j.state_of;
      };
    }

-- A decision that leaves the delivery waiting is an approval, and changes nothing.
apply_human_decision-waiting :
    (now id reference : ℕ) (change_ref : String) (db : Db) (d : Delivery)
    → (apply_human_decision now id reference change_ref db).0 ≡ ok d
    → d.stage ≡ DeliveryStage.waiting_approval
    → IsJudged now id change_ref db d approved
      × ((apply_human_decision now id reference change_ref db).1 ≡ db)
unfolding apply_human_decision decision_applied returned
apply_human_decision-waiting now id reference change_ref db d h s =
    elim (Result-cases (decision_check now id reference change_ref db)) [
      | inl (x, e) ↦ cc (rw e at h)
      | inr ((approved, m, d'), e) ↦
          let same : d' ≡ d = ok_cancel (rw e at h) in
          (
            subst (λ y. IsJudged now id change_ref db y approved) same
                (decision_check-IsJudged now id reference change_ref db approved m d' e),
            rw e refl,
          )
      | inr ((pending, m, d'), e) ↦ cc (rw e at h)
      | inr ((denied, m, d'), e) ↦ let k = ok_cancel (rw e at h) in ground (arith, k, s)
      | inr ((cancelled, m, d'), e) ↦ let k = ok_cancel (rw e at h) in ground (arith, k, s)
    ]

-- The mission of a code change, and its repository.
pub record IsCodeChange (id : ℕ) (db : Db) (repository : String) : Type 0 where
  pub mission : Mission
  pub row : mission_row id db ≡ some mission
  pub is_code_change : is_code_change mission ≡ true
  pub repository_of :
      repository_of "code-change mission has no repository" mission.objectives ≡ ok repository

code_change_check-eq-ok :
    (refused : String) (id : ℕ) (db : Db) (m : Mission) (repository : String)
    → code_change_check refused "code-change mission has no repository" id db ≡ ok (m, repository)
    → IsCodeChange id db repository
unfolding code_change_check
code_change_check-eq-ok refused id db m repository h = elim (Option-cases (mission_row id db)) [
  | inl n ↦ cc (rw n at h)
  | inr (m', em) ↦ elim (Bool-cases (is_code_change m')) [
    | inr t ↦ cc (rw (em, t) at h)
    | inl t ↦
        elim (Result-cases (repository_of "code-change mission has no repository" m'.objectives)) [
          | inl (x, e) ↦ cc (rw (em, t, e) at h)
          | inr (r, e) ↦
              let k = ok_cancel (rw (em, t, e) at h) in
              record {
                mission = m';
                row = em;
                is_code_change = t;
                repository_of = e ∙ ap ok (ap (λ p. p.1) k);
              }
        ]
  ]
]

-- A release that passes its checks.
pub record IsPermitted (now id : ℕ) (change_ref : String) (db : Db) (repository : String)
    (d : Delivery) : Type 0 where
  pub code_change : IsCodeChange id db repository
  pub row : delivery_row id db ≡ some d
  pub change : d.change_ref ≡ change_ref
  pub releasable : IsReleasable now db d

release_check-IsCodeChange :
    (what : String) (id reference : ℕ) (change_ref : String) (db : Db) (repository : String)
    (d : Delivery)
    → release_check what id reference change_ref db ≡ ok (repository, d)
    → IsCodeChange id db repository
unfolding release_check
release_check-IsCodeChange what id reference change_ref db repository d h =
    let refused : String = "mission is not an HQ code change" in
    let missing : String = "code-change mission has no repository" in
    elim (Result-cases (code_change_check refused missing id db)) [
      | inl (x, e) ↦ cc (rw e at h)
      | inr ((m, r), e) ↦ elim (Option-cases (delivery_row id db)) [
        | inl n ↦ cc (rw (e, n) at h)
        | inr (d', hd) ↦
            let k = rw (e, hd) at h in
            let same : r ≡ repository = ground arith in
            subst (IsCodeChange id db) same (code_change_check-eq-ok refused id db m r e)
      ]
    ]

-- A release goes on only with the approval of a person, and its checks write nothing then.
pub approved_release-IsPermitted :
    (what : String) (now id reference : ℕ) (change_ref : String) (db : Db) (repository : String)
    (d : Delivery)
    → (approved_release what now id reference change_ref db).0 ≡ ok (repository, d)
    → IsPermitted now id change_ref db repository d
      × ((approved_release what now id reference change_ref db).1 ≡ db)
unfolding approved_release
approved_release-IsPermitted what now id reference change_ref db repository d h =
    elim (Result-cases (release_check what id reference change_ref db)) [
      | inl (x, e) ↦ cc (rw e at h)
      | inr ((r, d0), e) ↦
          elim (Result-cases (apply_human_decision now id reference change_ref db).0) [
            | inl (x, e1) ↦ cc (rw (e, ◌>>=◌, e1) at h)
            | inr (d1, e1) ↦
                elim (Bool-cases (
                  same_stage d1.stage DeliveryStage.waiting_approval
                  && is_passed d1.qa_result
                  && same_reference d1.approval_reference reference)) [
                    | inr t ↦ let k0 = rw (e, ◌>>=◌, e1) at h in cc (rw t at k0)
                    | inl t ↦
                        let k0 = rw (e, ◌>>=◌, e1) at h in
                        let k = rw t at k0 in
                        let same : d1 ≡ d = ground (arith, k) in
                        let here : r ≡ repository = ground (arith, k) in
                        let (j, still) =
                          apply_human_decision-waiting now id reference change_ref db d1 e1
                            (ground arith) in
                        (
                          subst (λ y. IsPermitted now id change_ref db repository y) same
                              (record {
                                code_change = subst (IsCodeChange id db) here (
                                    release_check-IsCodeChange what id reference change_ref db r d0
                                      e);
                                row = j.row;
                                change = j.change;
                                releasable =
                                    IsJudged-IsReleasable now id change_ref db d1 j
                                      (ground (arith, t));
                              }),
                          rw (e, ◌>>=◌, e1) (rw t still),
                        )
                  ]
          ]
    ]
