-- ===== src/CodeChanges/Effects.antt =====
-- code_changes/service.py: when the service has something published, deployed or rolled back.
use ai_hq.Prelude.{
  ℕ, String, true, false, Option, none, some, List, ◌≡◌, refl, sym, ap, ◌∙◌, arith, is_none,
}
use ai_hq.Prelude.Result.{Result, Exec, ok, ◌>>◌}
use ai_hq.Json.{Json, Fields}
use ai_hq.Tables.{Db}
use ai_hq.Tables.Deliveries.{Delivery}
use ai_hq.Delivery.Releases.{record_publication, record_deployment, record_rollback}
use ai_hq.Delivery.Steps.{IsUnpublished, IsUndeployed}
use ai_hq.CodeChanges.Candidates.{
  PersistedCandidate, PublishedCandidate, published_candidate, DeployedRelease, RollbackTarget,
  rollback_target, RolledBackRelease,
}
use ai_hq.CodeChanges.Service.{
  Effect, publication, deployment, rollback, CodeChangeService, CodeChangeResult,
  result_for_mission, all_published, lift,
}
use ai_hq.CodeChanges.Releases.{
  or_text, publication_taken, deployment_taken, rollback_taken, recorded_candidate,
  publish_candidate, deploy_published, roll_back_to,
}
use ai_hq.CodeChanges.Doing.{
  Quiet, raise-Quiet, lift-Quiet, bind-Quiet, Does, Quiet-Does, from-Does, carry_out-Does,
  reopened-Does,
}

-- What a thing done outside has to do with the delivery.
abbrev pub Suits : String → String → Delivery → Effect → Type 0
Suits repository change_ref d (publication c) =
    (c.repository ≡ repository) × (c.change_ref ≡ change_ref) × IsUnpublished d
Suits repository change_ref d (deployment p) =
    (p.change_ref ≡ change_ref)
    × (d.published_commit ≡ some p.commit_sha)
    × (d.published_tree ≡ some p.tree_sha)
    × IsUndeployed d
Suits repository change_ref d (rollback t release_id) =
    (t.repository ≡ repository)
    × (t.change_ref ≡ change_ref)
    × (d.deployment_prior_release_id ≡ some release_id)
    × (d.rollback_release_id ≡ none)

pub text_there : (o : Option String) → is_none o ≡ false → o ≡ some (or_text o)
text_there none h = cc
text_there (some s) h = refl

recorded-Quiet :
    {A : Type 0} (m : Exec Db A) (service : CodeChangeService) (repository : String) (id : ℕ)
    → Quiet (lift m >> lift (result_for_mission service repository id))
recorded-Quiet m service repository id =
    bind-Quiet (lift m) (λ _. lift (result_for_mission service repository id)) (lift-Quiet m)
      (λ _. lift-Quiet (result_for_mission service repository id))

module _ (es : List Effect) (service : CodeChangeService) (later id : ℕ)
    (change_ref repository : String) where
  publication_taken-Quiet :
      (c : PersistedCandidate) (x : PublishedCandidate)
      → Quiet (publication_taken service later id change_ref repository c x)
  unfolding publication_taken Quiet
  publication_taken-Quiet c x w =
      let m = record_publication later id change_ref x.branch_name x.commit_sha x.tree_sha in
      ground (arith, recorded-Quiet m service repository id w)

  deployment_taken-Quiet :
      (x : DeployedRelease) → Quiet (deployment_taken service later id change_ref repository x)
  unfolding deployment_taken Quiet
  deployment_taken-Quiet x w =
      let m = record_deployment later id change_ref x.release_id x.prior_release_id in
      ground (arith, recorded-Quiet m service repository id w)

  rollback_taken-Quiet :
      (prior : String) (x : RolledBackRelease)
      → Quiet (rollback_taken service later id change_ref repository prior x)
  unfolding rollback_taken Quiet
  rollback_taken-Quiet prior x w =
      let m = record_rollback later id change_ref x.release_id in
      ground (arith, recorded-Quiet m service repository id w)

  pub publish_candidate-Does :
      (d : Delivery)
      (load : Option (List Effect → ℕ → String → List Json → Fields → Result PersistedCandidate))
      (publish : Option (List Effect → PersistedCandidate → Result PublishedCandidate))
      → IsUnpublished d
      → Does es
          (Suits repository change_ref d)
          (publish_candidate service later id change_ref repository d load publish)
  unfolding publish_candidate
  publish_candidate-Does d none none u = Quiet-Does es _ _ (raise-Quiet CodeChangeResult _)
  publish_candidate-Does d none (some p) u = Quiet-Does es _ _ (raise-Quiet CodeChangeResult _)
  publish_candidate-Does d (some l) none u = Quiet-Does es _ _ (raise-Quiet CodeChangeResult _)
  publish_candidate-Does d (some load) (some publish) u =
      reopened-Does es (Suits repository change_ref d) load id change_ref repository d _ (λ c r s.
        carry_out-Does es (Suits repository change_ref d) service (publication c)
          (λ effects. publish effects c)
          (publication_taken service later id change_ref repository c) (r, s, u)
          (publication_taken-Quiet c))

  recorded_candidate-eq-ok :
      (d : Delivery) (c : PersistedCandidate) (p : PublishedCandidate)
      → recorded_candidate repository change_ref d c ≡ ok p
      → (p.change_ref ≡ change_ref)
        × (p.commit_sha ≡ or_text d.published_commit)
        × (p.tree_sha ≡ or_text d.published_tree)
  unfolding recorded_candidate published_candidate
  recorded_candidate-eq-ok d c p h = (ground arith, ground arith, ground arith)

  pub deploy_published-Does :
      (d : Delivery) (deploy : Option (List Effect → PublishedCandidate → Result DeployedRelease))
      (load : Option (List Effect → ℕ → String → List Json → Fields → Result PersistedCandidate))
      → all_published d ≡ true
      → IsUndeployed d
      → Does es
          (Suits repository change_ref d)
          (deploy_published service later id change_ref repository d deploy load)
  unfolding deploy_published
  deploy_published-Does d none none a u = Quiet-Does es _ _ (raise-Quiet CodeChangeResult _)
  deploy_published-Does d none (some p) a u = Quiet-Does es _ _ (raise-Quiet CodeChangeResult _)
  deploy_published-Does d (some l) none a u = Quiet-Does es _ _ (raise-Quiet CodeChangeResult _)
  deploy_published-Does d (some deploy) (some load) a u =
      reopened-Does es (Suits repository change_ref d) load id change_ref repository d _ (λ c r s.
        from-Does es (Suits repository change_ref d) (recorded_candidate repository change_ref d c)
          _
          (λ p e.
            let (k, m, t) = recorded_candidate-eq-ok d c p e in
            carry_out-Does es (Suits repository change_ref d) service (deployment p)
              (λ effects. deploy effects p)
              (deployment_taken service later id change_ref repository)
              (
                k,
                text_there d.published_commit (ground arith) ∙ ap some (sym m),
                text_there d.published_tree (ground arith) ∙ ap some (sym t),
                u,
              )
              deployment_taken-Quiet))

  rollback_target-eq-ok :
      (t : RollbackTarget)
      → rollback_target (record { repository = repository; change_ref = change_ref }) ≡ ok t
      → (t.repository ≡ repository) × (t.change_ref ≡ change_ref)
  unfolding rollback_target
  rollback_target-eq-ok t h = (ground arith, ground arith)

  pub roll_back_to-Does :
      (d : Delivery) (prior : String)
      (roll_back : Option (List Effect → RollbackTarget → String → Result RolledBackRelease))
      → d.deployment_prior_release_id ≡ some prior
      → d.rollback_release_id ≡ none
      → Does es
          (Suits repository change_ref d)
          (roll_back_to service later id change_ref repository prior roll_back)
  unfolding roll_back_to
  roll_back_to-Does d prior none e n = Quiet-Does es _ _ (raise-Quiet CodeChangeResult _)
  roll_back_to-Does d prior (some roll_back) e n =
      from-Does es (Suits repository change_ref d)
        (rollback_target (record { repository = repository; change_ref = change_ref })) _
        (λ t h.
          let (r, c) = rollback_target-eq-ok t h in
          carry_out-Does es (Suits repository change_ref d) service (rollback t prior)
            (λ effects. roll_back effects t prior)
            (rollback_taken service later id change_ref repository prior) (r, c, e, n)
            (rollback_taken-Quiet prior))
