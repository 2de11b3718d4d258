-- ===== src/Delivery/Permanent.antt =====
-- delivery/service.py: what has been recorded of a release is never changed.
use ai_hq.Prelude.{ℕ, String, Option, none, some, List, [], ◌∷◌, ◌≡◌, refl, ◌∙◌, subst, some_cancel}
use ai_hq.Json.{Json}
use ai_hq.Tables.{Db}
use ai_hq.Tables.Deliveries.{Delivery}
use ai_hq.Delivery.Proposals.{delivery_row}
use ai_hq.Delivery.Steps.{
  Handoff, fail_qa, pass_qa, publish, deploy, restore, send_back, Advance, stay, propose, advance,
}
use ai_hq.Delivery.Calls.{DeliveryCall, delivery_call, delivery_call-Advance, delivery_calls}

-- A column that has a value keeps it.
abbrev pub Kept : Option String → Option String → Type 0
Kept o o' = (s : String) → o ≡ some s → o' ≡ some s

pub record Preserves (d d' : Delivery) : Type 0 where
  pub change_ref : d'.change_ref ≡ d.change_ref
  pub branch : Kept d.published_branch d'.published_branch
  pub commit : Kept d.published_commit d'.published_commit
  pub tree : Kept d.published_tree d'.published_tree
  pub release : Kept d.deployment_release_id d'.deployment_release_id
  pub prior : Kept d.deployment_prior_release_id d'.deployment_prior_release_id
  pub rollback : Kept d.rollback_release_id d'.rollback_release_id

Kept_none : {o : Option String} (o' : Option String) → o ≡ none → Kept o o'
Kept_none o' n s h = cc

Preserves-refl : (d : Delivery) → Preserves d d
Preserves-refl d = record {
  change_ref = refl;
  branch = λ s h. h;
  commit = λ s h. h;
  tree = λ s h. h;
  release = λ s h. h;
  prior = λ s h. h;
  rollback = λ s h. h;
}

Preserves-trans : (a b c : Delivery) → Preserves a b → Preserves b c → Preserves a c
Preserves-trans a b c p q = record {
  change_ref = q.change_ref ∙ p.change_ref;
  branch = λ s h. q.branch s (p.branch s h);
  commit = λ s h. q.commit s (p.commit s h);
  tree = λ s h. q.tree s (p.tree s h);
  release = λ s h. q.release s (p.release s h);
  prior = λ s h. q.prior s (p.prior s h);
  rollback = λ s h. q.rollback s (p.rollback s h);
}

Handoff-Preserves : {db : Db} (d d' : Delivery) → Handoff db d d' → Preserves d d'
Handoff-Preserves d d' (fail_qa e q) = record {
  change_ref = refl;
  branch = λ s h. h;
  commit = λ s h. h;
  tree = λ s h. h;
  release = λ s h. h;
  prior = λ s h. h;
  rollback = λ s h. h;
}
Handoff-Preserves d d' (pass_qa e q) = record {
  change_ref = refl;
  branch = λ s h. h;
  commit = λ s h. h;
  tree = λ s h. h;
  release = λ s h. h;
  prior = λ s h. h;
  rollback = λ s h. h;
}
Handoff-Preserves d d' (publish now b c t hb hc ht rel u) = record {
  change_ref = refl;
  branch = Kept_none (some b) u.branch;
  commit = Kept_none (some c) u.commit;
  tree = Kept_none (some t) u.tree;
  release = λ s h. h;
  prior = λ s h. h;
  rollback = λ s h. h;
}
Handoff-Preserves d d' (deploy now r p hr rel pub' u) = record {
  change_ref = refl;
  branch = λ s h. h;
  commit = λ s h. h;
  tree = λ s h. h;
  release = Kept_none (some r) u.release;
  prior = Kept_none p u.prior;
  rollback = λ s h. h;
}
Handoff-Preserves d d' (restore now r rel pub' dep pr n) = record {
  change_ref = refl;
  branch = λ s h. h;
  commit = λ s h. h;
  tree = λ s h. h;
  release = λ s h. h;
  prior = λ s h. h;
  rollback = Kept_none (some r) n;
}
Handoff-Preserves d d' (send_back k r w ref row e) = record {
  change_ref = refl;
  branch = λ s h. h;
  commit = λ s h. h;
  tree = λ s h. h;
  release = λ s h. h;
  prior = λ s h. h;
  rollback = λ s h. h;
}

-- The row after a call.
Later : Delivery → Option Delivery → Type 0
Later d o = (d' : Delivery) × (o ≡ some d') × Preserves d d'

Advance-Later :
    {db : Db} {o o' : Option Delivery} (d : Delivery) → Advance db o o' → o ≡ some d → Later d o'
unfolding Later
Advance-Later d (stay o) h = (d, h, Preserves-refl d)
Advance-Later d (propose x p) h = cc
Advance-Later d (advance x x' step) h =
    (x', refl, subst (λ y. Preserves y x') (some_cancel h) (Handoff-Preserves x x' step))

-- Under every sequence of calls a delivery stays, with its change and with every branch, commit,
-- tree, release, prior release and rollback that has been recorded of it.
pub release_permanent :
    (digest : Json → String) (k : ℕ) (d : Delivery) (cs : List DeliveryCall) (db : Db)
    → delivery_row k db ≡ some d
    → (d' : Delivery) × (delivery_row k (delivery_calls digest cs db) ≡ some d') × Preserves d d'
unfolding delivery_calls Later
release_permanent digest k d [] db h = (d, h, Preserves-refl d)
release_permanent digest k d (c ∷ cs) db h =
    let (x, hx, px) = Advance-Later d (delivery_call-Advance digest k c db) h in
    let (y, hy, py) = release_permanent digest k x cs (delivery_call digest c db) hx in
    (y, hy, Preserves-trans d x y px py)
