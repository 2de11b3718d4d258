-- ===== src/CodeChanges/Answers.antt =====
-- code_changes/deployer.py and rollbacker.py: what of an answer of the transport is believed.
use ai_hq.Prelude.{
  String, true, Option, some, List, ◌≡◌, sym, ap, ◌∙◌, inl, inr, arith, Bool-cases, Option-cases,
  some_cancel, eq_iff, str_eq,
}
use ai_hq.Prelude.Result.{Result-cases, ok, ok_cancel}
use ai_hq.Json.{Fields, get_field}
use ai_hq.Tools.{ToolRequest}
use ai_hq.Operations.Targets.{OperationalTarget}
use ai_hq.Operations.Adapters.{OperationalTransport, deploy}
use ai_hq.CodeChanges.Candidates.{PublishedCandidate, DeployedRelease, deployed_release}
use ai_hq.CodeChanges.Deployers.{confirms, trusted_id, trusted_prior, deploy_candidate}

module _ (transport : OperationalTransport) (target : OperationalTarget)
    (calls : List ToolRequest) where
  -- The ids of a release are those of a confirmed answer.
  pub record IsAnswered (c : PublishedCandidate) (r : DeployedRelease) : Type 0 where
    pub result : Fields
    pub answer : transport.answer calls (deploy target) ≡ some result
    pub confirmed : confirms "deployed" result ≡ true
    pub release : trusted_id (get_field "release_id" result) ≡ some r.release_id
    pub prior : trusted_prior (get_field "prior_release_id" result) ≡ ok r.prior_release_id
    pub target_key : c.repository ≡ target.key

  deploy_candidate-IsAnswered :
      (c : PublishedCandidate) (r : DeployedRelease)
      → deploy_candidate transport target calls c ≡ ok r
      → IsAnswered c r
  unfolding deploy_candidate
  deploy_candidate-IsAnswered c r h = elim (Bool-cases (str_eq c.repository target.key)) [
    | inr t ↦ cc (rw t at h)
    | inl t ↦ elim (Option-cases (transport.answer calls (deploy target))) [
      | inl n ↦ cc (rw (t, n) at h)
      | inr (result, a) ↦ elim (Bool-cases (confirms "deployed" result)) [
        | inr u ↦ cc (rw (t, a, u) at h)
        | inl u ↦ elim (Option-cases (trusted_id (get_field "release_id" result))) [
          | inl n ↦ cc (rw (t, a, u, n) at h)
          | inr (id, i) ↦
              elim (Result-cases (trusted_prior (get_field "prior_release_id" result))) [
                | inl (x, n) ↦ cc (rw (t, a, u, i, n) at h)
                | inr (p, j) ↦
                    let k = rw (t, a, u, i, j) at h in
                    let (e1, e2) = ids c id p r k in
                    record {
                      result = result;
                      answer = a;
                      confirmed = u;
                      release = i ∙ ap some e1;
                      prior = j ∙ ap ok e2;
                      target_key = (eq_iff c.repository target.key).0 t;
                    }
              ]
        ]
      ]
    ]
  ]
    where
      ids :
          (c : PublishedCandidate) (id : String) (p : Option String) (r : DeployedRelease)
          → deployed_release (record {
            repository = c.repository;
            change_ref = c.change_ref;
            release_id = id;
            prior_release_id = p;
          })
            ≡ ok r
          → (id ≡ r.release_id) × (p ≡ r.prior_release_id)
      ids c id p r h = unfold deployed_release in (ground arith, ground arith)

  -- The transport is not told which change it deploys: the deployments of two candidates of one
  -- repository, published from different commits, have the same release and the same prior release.
  pub deploy_ignores_change :
      (c c' : PublishedCandidate) (r r' : DeployedRelease)
      → deploy_candidate transport target calls c ≡ ok r
      → deploy_candidate transport target calls c' ≡ ok r'
      → (r.release_id ≡ r'.release_id) × (r.prior_release_id ≡ r'.prior_release_id)
  deploy_ignores_change c c' r r' h h' =
      let a = deploy_candidate-IsAnswered c r h in
      let b = deploy_candidate-IsAnswered c' r' h' in
      let same : a.result ≡ b.result = some_cancel (sym a.answer ∙ b.answer) in
      (
        some_cancel
            (sym a.release ∙ ap (λ x. trusted_id (get_field "release_id" x)) same ∙ b.release),
        ok_cancel
            (sym a.prior ∙ ap (λ x. trusted_prior (get_field "prior_release_id" x)) same ∙ b.prior),
      )
