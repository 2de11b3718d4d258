-- ===== src/CodeChanges/Permission.antt =====
-- code_changes/service.py: nothing is published, deployed or rolled back without the approval of a
-- person.
use ai_hq.Prelude.{
  ℕ, String, Bool, true, false, not, ◌||◌, Option, none, some, List, [], ◌∷◌, ◌++◌, ◌≡◌, refl, inl,
  inr, ◌⊎◌, arith, is_none, if◌then◌else◌,
}
use ai_hq.Prelude.Result.{Result-cases, Exec, ◌>>=◌}
use ai_hq.Tables.Deliveries.{Delivery}
use ai_hq.Delivery.Steps.{IsUnpublished, IsUndeployed}
use ai_hq.Delivery.Methods.{is_none-eq}
use ai_hq.CodeChanges.Service.{
  Effect, World, CodeChangeService, CodeChangeResult, result_for_mission, approved_release,
  all_published, lift,
}
use ai_hq.CodeChanges.Releases.{
  or_text, any_published, publish_approved_candidate, deploy_approved_candidate, restore_prior,
  rollback_approved_deployment,
}
use ai_hq.CodeChanges.Approved.{IsPermitted, approved_release-IsPermitted}
use ai_hq.CodeChanges.Doing.{Quiet, lift-Quiet, Does, Quiet-Does, ensure-Does}
use ai_hq.CodeChanges.Effects.{
  Suits, publish_candidate-Does, deploy_published-Does, roll_back_to-Does, text_there,
}

pub data ReleaseCall : Type 0 where
  publish_change deploy_change roll_back_change : ReleaseCall

unfoldable pub release :
    ReleaseCall → CodeChangeService → ℕ → ℕ → ℕ → ℕ → String → Exec World CodeChangeResult
release publish_change = publish_approved_candidate
release deploy_change = deploy_approved_candidate
release roll_back_change = rollback_approved_deployment

-- The one thing that was done outside, and what permitted it.
pub record IsDone (now id : ℕ) (change_ref : String) (before after : World) : Type 0 where
  pub effect : Effect
  pub repository : String
  pub delivery : Delivery
  pub done : after.effects ≡ before.effects ++ effect ∷ []
  pub permitted : IsPermitted now id change_ref before.tables repository delivery
  pub suits : Suits repository change_ref delivery effect

abbrev Outcome : ℕ → ℕ → String → World → World → Type 0
Outcome now id change_ref w w' = (w'.effects ≡ w.effects) ⊎ IsDone now id change_ref w w'

approved-Outcome :
    (what : String) (now id reference : ℕ) (change_ref : String)
    (f : String × Delivery → Exec World CodeChangeResult) (w : World)
    → ((repository : String) (d : Delivery)
        → IsPermitted now id change_ref w.tables repository d
        → Does w.effects (Suits repository change_ref d) (f (repository, d)))
    → Outcome now id change_ref w
        ((lift (approved_release what now id reference change_ref) >>= f) w).1
unfolding Does
approved-Outcome what now id reference change_ref f w g =
    elim (Result-cases (approved_release what now id reference change_ref w.tables).0) [
      | inl (x, e) ↦ rw (◌>>=◌, e) (inl refl)
      | inr ((repository, d), e) ↦
          let (p, still) =
            approved_release-IsPermitted what now id reference change_ref w.tables repository d e in
          rw (◌>>=◌, e)
            (elim (g repository d p
              (record w { tables = (approved_release what now id reference change_ref w.tables).1 })
              refl) [
                | inl q ↦ inl q
                | inr (x, q, s) ↦ inr (record {
                  effect = x;
                  repository = repository;
                  delivery = d;
                  done = q;
                  permitted = p;
                  suits = s;
                })
              ])
    ]

unpublished : (d : Delivery) → not (any_published d) ≡ true → IsUnpublished d
unpublished d h = record {
  branch = is_none-eq d.published_branch (ground arith);
  commit = is_none-eq d.published_commit (ground arith);
  tree = is_none-eq d.published_tree (ground arith);
}

undeployed :
    (d : Delivery)
    → (not (is_none d.deployment_release_id) || not (is_none d.deployment_prior_release_id)) ≡ false
    → IsUndeployed d
undeployed d h = record {
  release = is_none-eq d.deployment_release_id (ground arith);
  prior = is_none-eq d.deployment_prior_release_id (ground arith);
}

if-Does :
    (es : List Effect) (P : Effect → Type 0) {A : Type 0} (b : Bool) (m n : Exec World A)
    → Quiet m
    → (b ≡ false → Does es P n)
    → Does es P (if b then m else n)
if-Does es P true m n q d = Quiet-Does es P m q
if-Does es P false m n q d = d refl

restore_prior-Does :
    (es : List Effect) (service : CodeChangeService) (later id : ℕ)
    (change_ref repository prior : String) (d : Delivery) (o : Option String)
    → d.deployment_prior_release_id ≡ some prior
    → d.rollback_release_id ≡ o
    → Does es
        (Suits repository change_ref d)
        (restore_prior service later id change_ref repository prior o)
unfolding restore_prior
restore_prior-Does es service later id change_ref repository prior d none e n =
    roll_back_to-Does es service later id change_ref repository d prior service.rollbacker e n
restore_prior-Does es service later id change_ref repository prior d (some x) e n =
    ensure-Does es (Suits repository change_ref d) _ _ _
      (λ t. Quiet-Does es _ _ (lift-Quiet (result_for_mission service repository id)))

-- A call of `publish_approved_candidate`, `deploy_approved_candidate` or
-- `rollback_approved_deployment` has at most one thing done outside, whatever other processes do
-- meanwhile and whatever comes back. Then the mission is a code change of a trusted repository,
-- its delivery has passed QA, and a person has approved exactly this change, not yet expired; a
-- publication is of a candidate of that repository and change and of nothing published before, a
-- deployment of the recorded commit and tree and of nothing deployed before, and a rollback goes
-- to the release that the recorded deployment replaced, once.
pub release_permitted :
    (service : CodeChangeService) (call : ReleaseCall) (now later id reference : ℕ)
    (change_ref : String) (w : World)
    → ((release call service now later id reference change_ref w).1.effects ≡ w.effects)
      ⊎ IsDone now id change_ref w (release call service now later id reference change_ref w).1
unfolding release publish_approved_candidate deploy_approved_candidate rollback_approved_deployment
release_permitted service publish_change now later id reference change_ref w =
    approved-Outcome "publication" now id reference change_ref _ w (λ repository d p.
      if-Does w.effects (Suits repository change_ref d) (all_published d) _ _
        (lift-Quiet (result_for_mission service repository id))
        (λ f.
          ensure-Does w.effects (Suits repository change_ref d) (not (any_published d))
            "persisted publication identity is incomplete" _
            (λ n.
              publish_candidate-Does w.effects service later id change_ref repository d
                service.candidate_store service.publisher (unpublished d n))))
release_permitted service deploy_change now later id reference change_ref w =
    approved-Outcome "deployment" now id reference change_ref _ w (λ repository d p.
      ensure-Does w.effects (Suits repository change_ref d) (all_published d)
        "candidate must be published before deployment" _
        (λ a.
          if-Does w.effects (Suits repository change_ref d)
            (not (is_none d.deployment_release_id) || not (is_none d.deployment_prior_release_id)) _
            _ (lift-Quiet (result_for_mission service repository id))
            (λ f.
              deploy_published-Does w.effects service later id change_ref repository d
                service.deployer service.candidate_store a (undeployed d f))))
release_permitted service roll_back_change now later id reference change_ref w =
    approved-Outcome "rollback" now id reference change_ref _ w (λ repository d p.
      ensure-Does w.effects (Suits repository change_ref d) (all_published d)
        "candidate must be published before rollback" _
        (λ a.
          ensure-Does w.effects (Suits repository change_ref d)
            (not (is_none d.deployment_release_id)) "candidate must be deployed before rollback" _
            (λ b.
              ensure-Does w.effects (Suits repository change_ref d)
                (not (is_none d.deployment_prior_release_id))
                "no prior known-good release is recorded for rollback" _
                (λ c.
                  restore_prior-Does w.effects service later id change_ref repository
                    (or_text d.deployment_prior_release_id) d d.rollback_release_id
                    (text_there d.deployment_prior_release_id (ground arith)) refl))))
