-- ===== src/Delivery/Course.antt =====
-- delivery/service.py: the course of a change as an observer sees it, which the service refines.
use ai_hq.Prelude.{
  ℕ, String, Option, none, some, List, [], ◌∷◌, ◌≡◌, refl, sym, ◌∙◌, inl, inr, subst, arith, ap,
  true, false, if◌then◌else◌, is_none, not,
}
use ai_hq.Json.{Json}
use ai_hq.Tables.{Db}
use ai_hq.Tables.Deliveries.{Delivery, DeliveryStage, developer, qa}
use ai_hq.Delivery.Identity.{is_set}
use ai_hq.Delivery.Proposals.{delivery_row}
use ai_hq.Delivery.Steps.{
  Handoff, fail_qa, pass_qa, publish, deploy, restore, send_back, Advance, stay, propose, advance,
  IsUndeployed, IsUnpublished,
}
use ai_hq.Delivery.Sound.{AllSound, IsSound, Advance-IsSound, early, Handoff-IsSound}
use ai_hq.Delivery.Persists.{delivery_call-Persists}
use ai_hq.Delivery.Calls.{DeliveryCall, delivery_call, delivery_call-Advance, delivery_calls}

pub data Phase : Type 0 where
  absent in_qa returned awaiting published deployed rolled_back : Phase

-- The moves of the specification.
pub data Move : Phase → Phase → Type 0 where
  proposed : Move absent in_qa
  rejected : Move in_qa returned
  passed : Move in_qa awaiting
  refused : Move awaiting returned
  released : Move awaiting published
  installed : Move published deployed
  restored : Move deployed rolled_back

pub data Course : Phase → Phase → Type 0 where
  done : (p : Phase) → Course p p
  then_move : {p q r : Phase} → Move p q → Course q r → Course p r

abbrev stage_phase : DeliveryStage → Phase
stage_phase developer = returned
stage_phase qa = in_qa
stage_phase DeliveryStage.waiting_approval = awaiting

-- What the columns of a delivery show.
unfoldable pub delivery_phase : Delivery → Phase
delivery_phase d =
    if not (is_none d.rollback_release_id)
    then rolled_back
    else if not (is_none d.deployment_release_id)
    then deployed
    else if not (is_none d.published_branch)
    then published
    else stage_phase d.stage

unfoldable pub phase_of : Option Delivery → Phase
unfolding delivery_phase
phase_of none = absent
phase_of (some d) = delivery_phase d

-- What has not been published has not been deployed, and what has not been deployed has not been
-- rolled back.
record IsEarly (d : Delivery) : Type 0 where
  branch : d.published_branch ≡ none
  release : d.deployment_release_id ≡ none
  rollback : d.rollback_release_id ≡ none

no_text : (o : Option String) → o ≡ none → is_set o ≡ true → ⊥
no_text none e h = cc
no_text (some s) e h = cc

undeployed-IsEarly :
    {db : Db} (d : Delivery) → IsUndeployed d → IsSound db d → d.rollback_release_id ≡ none
undeployed-IsEarly d u s = elim s.rollback [
  | inl n ↦ n
  | inr (x, e) ↦ absurd (no_text d.deployment_release_id u.release x)
]

unpublished-IsEarly : {db : Db} (d : Delivery) → IsUnpublished d → IsSound db d → IsEarly d
unpublished-IsEarly d u s = elim s.deployment [
  | inl v ↦ record { branch = u.branch; release = v.release; rollback = undeployed-IsEarly d v s }
  | inr (x, e) ↦ absurd (no_text d.published_branch u.branch (ground arith))
]

IsEarly-phase : (d : Delivery) → IsEarly d → delivery_phase d ≡ stage_phase d.stage
unfolding delivery_phase
IsEarly-phase d e = rw (e.rollback, e.release, e.branch) refl

-- A column that is set is no null.
set_some : (o : Option String) → is_set o ≡ true → is_none o ≡ false
set_some none h = cc
set_some (some s) h = refl

one : {p q : Phase} (a b : Phase) → a ≡ p → b ≡ q → Move p q → Course a b
one {p} {q} a b e f m =
    subst (λ x. Course x b) (sym e) (subst (λ y. Course p y) (sym f) (then_move m (done q)))

-- What went back to the developer has not been published.
sent_back : {db : Db} (d : Delivery) → d.stage ≡ developer → IsSound db d → IsUnpublished d
sent_back d q s = elim s.publication [
  | inl u ↦ u
  | inr (p, a) ↦ let w = a.waiting.stage in absurd (ground (arith, q))
]

early-phase :
    (d : Delivery) (st : DeliveryStage)
    → d.stage ≡ st
    → IsEarly d
    → delivery_phase d ≡ stage_phase st
early-phase d st q e = IsEarly-phase d e ∙ ap stage_phase q

Handoff-Course :
    (db : Db) (d d' : Delivery)
    → Handoff db d d'
    → IsSound db d
    → Course (delivery_phase d) (delivery_phase d')
unfolding delivery_phase
Handoff-Course db d d' (fail_qa e q) s =
    let x = unpublished-IsEarly d (early db d q s) s in
    one _ _ (early-phase d qa q x) (rw (x.rollback, x.release, x.branch) refl) rejected
Handoff-Course db d d' (pass_qa e q) s =
    let x = unpublished-IsEarly d (early db d q s) s in
    one _ _ (early-phase d qa q x) (rw (x.rollback, x.release, x.branch) refl) passed
Handoff-Course db d d' (publish now b c t hb hc ht rel u) s =
    let x = unpublished-IsEarly d u s in
    one _ _ (early-phase d DeliveryStage.waiting_approval rel.waiting.stage x)
      (rw (x.rollback, x.release) refl) released
Handoff-Course db d d' (deploy now r p hr rel pub' u) s =
    let n = undeployed-IsEarly d u s in
    let set : is_none d.published_branch ≡ false = set_some d.published_branch (ground arith) in
    one _ _ (rw (n, u.release, set) refl) (rw n refl) installed
Handoff-Course db d d' (restore now r rel pub' dep pr n) s =
    one _ _ (rw (n, set_some d.deployment_release_id dep) refl) refl restored
Handoff-Course db d d' (send_back k r w ref row e) s =
    let after =
      Handoff-IsSound {db = db} {db' = db} (λ j y st h. h) d _ (send_back k r w ref row e) s in
    let u = sent_back _ refl after in
    let x =
      unpublished-IsEarly d (record { branch = u.branch; commit = u.commit; tree = u.tree }) s in
    one _ _ (early-phase d DeliveryStage.waiting_approval w x)
      (rw (x.rollback, x.release, x.branch) refl) refused

Advance-Course :
    (db : Db) {o o' : Option Delivery}
    → Advance db o o'
    → ((d : Delivery) → o ≡ some d → IsSound db d)
    → Course (phase_of o) (phase_of o')
unfolding phase_of
Advance-Course db (stay o) s = done (phase_of o)
Advance-Course db (propose d p) s =
    one _ _ refl
      (early-phase d qa p.stage (record {
        branch = p.unpublished.branch;
        release = p.undeployed.release;
        rollback = p.unrestored;
      }))
      proposed
Advance-Course db (advance d d' step) s = Handoff-Course db d d' step (s d refl)

Course-trans : {p q r : Phase} → Course p q → Course q r → Course p r
Course-trans (done p) c = c
Course-trans (then_move m b) c = then_move m (Course-trans b c)

-- From tables whose deliveries are sound, every sequence of calls takes the change of a mission
-- along a course of the specification: it is proposed; QA passes or rejects it; a person refuses
-- it, or it is published, then deployed, then rolled back; and a rejected or refused change
-- moves no more.
pub delivery_calls-Course :
    (digest : Json → String) (k : ℕ) (cs : List DeliveryCall) (db : Db)
    → AllSound db
    → Course
        (phase_of (delivery_row k db))
        (phase_of (delivery_row k (delivery_calls digest cs db)))
unfolding delivery_calls
delivery_calls-Course digest k [] db s = done (phase_of (delivery_row k db))
delivery_calls-Course digest k (c ∷ cs) db s =
    let next : AllSound (delivery_call digest c db) = λ j d e.
      Advance-IsSound (delivery_call-Persists digest c db) (delivery_call-Advance digest j c db)
        (s j) d e in
    Course-trans (Advance-Course db (delivery_call-Advance digest k c db) (s k))
      (delivery_calls-Course digest k cs (delivery_call digest c db) next)
