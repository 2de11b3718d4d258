-- ===== src/CodeChanges/Doing.antt =====
-- code_changes/service.py: methods that have nothing done outside, and methods that have one thing
-- done.
use ai_hq.Prelude.{
  String, Bool, true, false, List, [], ◌∷◌, ◌++◌, ◌≡◌, refl, ap, ◌∙◌, inl, inr, ◌⊎◌, eq_iff, str_eq,
  Bool-cases, ℕ,
}
use ai_hq.Prelude.Result.{Result, Result-cases, Exec, ok, err, Error, raise, ◌>>=◌}
use ai_hq.Json.{Json, Fields}
use ai_hq.Tables.{Db}
use ai_hq.Tables.Deliveries.{Delivery}
use ai_hq.CodeChanges.Candidates.{PersistedCandidate}
use ai_hq.CodeChanges.Service.{Effect, World, CodeChangeService, ensure, lift, from, carry_out}
use ai_hq.CodeChanges.Releases.{reopened}

unfoldable pub Quiet : {A : Type 0} → Exec World A → Type 0
Quiet m = (w : World) → (m w).1.effects ≡ w.effects

pub raise-Quiet : (A : Type 0) (e : Error) → Quiet {A = A} (raise e)
unfolding Quiet
raise-Quiet A e w = refl

pub lift-Quiet : {A : Type 0} (m : Exec Db A) → Quiet (lift m)
unfolding Quiet
lift-Quiet m w = refl

pub bind-Quiet :
    {A B : Type 0} (m : Exec World A) (f : A → Exec World B)
    → Quiet m
    → ((a : A) → Quiet (f a))
    → Quiet (m >>= f)
unfolding Quiet
bind-Quiet m f q r w = elim (Result-cases (m w).0) [
  | inl (e, h) ↦ rw (◌>>=◌, h) (q w)
  | inr (a, h) ↦ rw (◌>>=◌, h) (r a (m w).1 ∙ q w)
]

module _ (es : List Effect) (P : Effect → Type 0) where
  -- After the effects `es` nothing is done, or one thing that has the property.
  unfoldable pub Does : {A : Type 0} → Exec World A → Type 0
  Does m =
      (w : World)
      → w.effects ≡ es
      → ((m w).1.effects ≡ es) ⊎ ((e : Effect) × ((m w).1.effects ≡ es ++ e ∷ []) × P e)

  pub Quiet-Does : {A : Type 0} (m : Exec World A) → Quiet m → Does m
  unfolding Does Quiet
  Quiet-Does m q w h = inl (q w ∙ h)

  pub ensure-Does :
      {A : Type 0} (b : Bool) (message : String) (m : Exec World A)
      → (b ≡ true → Does m)
      → Does (ensure b message m)
  unfolding Does
  ensure-Does true message m d w h = d refl w h
  ensure-Does false message m d w h = inl h

  pub from-Does :
      {A B : Type 0} (r : Result A) (f : A → Exec World B)
      → ((a : A) → r ≡ ok a → Does (f a))
      → Does (from r >>= f)
  unfolding Does
  from-Does (ok a) f d w h = d a refl w h
  from-Does (err e) f d w h = inl h

  pub carry_out-Does :
      {A B : Type 0} (service : CodeChangeService) (e : Effect) (answer : List Effect → Result A)
      (f : A → Exec World B)
      → P e
      → ((a : A) → Quiet (f a))
      → Does (carry_out service e answer >>= f)
  unfolding Does Quiet carry_out
  carry_out-Does service e answer f p q w h = inr (
    e,
    (elim (Result-cases (answer w.effects)) [
      | inl (x, k) ↦ rw (◌>>=◌, k) (ap (λ l. l ++ e ∷ []) h)
      | inr (a, k) ↦ rw (◌>>=◌, k) (q a _ ∙ ap (λ l. l ++ e ∷ []) h)
    ]),
    p,
  )

  pub reopened-Does :
      {B : Type 0}
      (load : List Effect → ℕ → String → List Json → Fields → Result PersistedCandidate)
      (mission_id : ℕ) (change_ref repository : String) (d : Delivery)
      (f : PersistedCandidate → Exec World B)
      → ((c : PersistedCandidate)
          → c.repository ≡ repository
          → c.change_ref ≡ change_ref
          → Does (f c))
      → Does (reopened load mission_id change_ref repository d >>= f)
  unfolding Does reopened
  reopened-Does load mission_id change_ref repository d f g w h =
      elim (Result-cases
        (load w.effects mission_id change_ref d.changed_files d.developer_evidence)) [
          | inl (x, k) ↦ rw (◌>>=◌, k) (inl h)
          | inr (c, k) ↦ elim (Bool-cases (str_eq c.repository repository)) [
            | inr t ↦ rw (◌>>=◌, k) (rw t (inl h))
            | inl t ↦ elim (Bool-cases (str_eq c.change_ref change_ref)) [
              | inr u ↦ rw (◌>>=◌, k) (rw (t, u) (inl h))
              | inl u ↦
                  rw (◌>>=◌, k)
                    (rw (t, u)
                      (g c ((eq_iff c.repository repository).0 t)
                        ((eq_iff c.change_ref change_ref).0 u) w h))
            ]
          ]
        ]
