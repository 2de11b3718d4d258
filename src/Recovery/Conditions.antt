-- ===== src/Recovery/Conditions.antt =====
-- recovery/policy.py: what a recovery requires, of the readiness, the component and the state of its
-- service, and how the tests of the policy read it.
use ai_hq.Prelude.{
  ℕ, ◌≤◌, String, true, false, Option, none, some, str_eq, ◌≡◌, ◌≢◌, ◌↔◌, ◌⊎◌, refl, ap, ◌∙◌,
  eq_iff, arith, Bool-cases, Option-cases, inl, inr,
}
use ai_hq.Json.{Json, Fields, get_field, null, bool, num, text, arr, obj}
use ai_hq.Recovery.Policy.{
  storage_decision, is_bool, is_down, state_text, recovery_component, judge_storage, judge_value,
}

pub IsDownText : String → Type 0
IsDownText state = (state ≡ "inactive") ⊎ (state ≡ "failed")

-- What was observed of the service, which reads as the empty text if nothing was.
pub IsDown : (String → String) → Option String → Type 0
IsDown casefold none = IsDownText (casefold "")
IsDown casefold (some state) = IsDownText (casefold state)

-- The five components that a recovery is known for.
pub IsKnown : Option String → Type 0
IsKnown component =
    (component ≡ some "app")
    ⊎ (component ≡ some "mcp")
    ⊎ (component ≡ some "proxy")
    ⊎ (component ≡ some "tunnel")
    ⊎ (component ≡ some "database")

-- The readiness neither says `ok` nor reports a storage that is unavailable or unwritable, the
-- failures reach the threshold, and a known component was named whose service is down.
pub record MayRecover (casefold : String → String) (component service_state : Option String)
    (failures threshold : ℕ) (readiness : Fields) : Type 0 where
  pub unready : get_field "ok" readiness ≢ some (bool true)
  pub available :
      (storage : Fields)
      → get_field "storage" readiness ≡ some (obj storage)
      → get_field "available" storage ≢ some (bool false)
  pub writable :
      (storage : Fields)
      → get_field "storage" readiness ≡ some (obj storage)
      → get_field "writable" storage ≢ some (bool false)
  pub often : threshold ≤ failures
  pub known : IsKnown component
  pub down : IsDown casefold service_state

pub is_bool_true_lem : (v : Option Json) → (is_bool true v ≡ false) ↔ (v ≢ some (bool true))
unfolding is_bool
is_bool_true_lem v = (λ h. ground (arith, h), λ n. ground (arith, n))

pub is_bool_false_lem : (v : Option Json) → (is_bool false v ≡ false) ↔ (v ≢ some (bool false))
unfolding is_bool
is_bool_false_lem v = (λ h. ground (arith, h), λ n. ground (arith, n))

-- A storage settles nothing exactly if it is neither unavailable nor unwritable, unless all is well.
pub judge_storage-none :
    (readiness storage : Fields)
    → is_bool true (get_field "ok" readiness) ≡ false
    → (judge_storage readiness storage ≡ none) ↔ (
        (get_field "available" storage ≢ some (bool false))
        × (get_field "writable" storage ≢ some (bool false)))
unfolding judge_storage
judge_storage-none readiness storage unready = (
  λ h. (
    (is_bool_false_lem (get_field "available" storage)).0 (ground (arith, h)),
    (is_bool_false_lem (get_field "writable" storage)).0 (ground (arith, h)),
  ),
  λ (a, w).
      rw
        (
          judge_storage,
          (is_bool_false_lem (get_field "available" storage)).1 a,
          (is_bool_false_lem (get_field "writable" storage)).1 w,
          unready,
        )
        refl,
)

pub storage_decision-obj :
    (readiness storage : Fields)
    → get_field "storage" readiness ≡ some (obj storage)
    → storage_decision readiness ≡ judge_storage readiness storage
unfolding storage_decision judge_value
storage_decision-obj readiness storage e = rw (storage_decision, e) refl

judge_value-none :
    (readiness : Fields) (value : Json)
    → ((storage : Fields) → value ≡ obj storage → judge_storage readiness storage ≡ none)
    → judge_value readiness value ≡ none
unfolding judge_value
judge_value-none readiness (obj fs) h = h fs refl
judge_value-none readiness null h = refl
judge_value-none readiness (bool b) h = refl
judge_value-none readiness (num n) h = refl
judge_value-none readiness (text s) h = refl
judge_value-none readiness (arr xs) h = refl

pub storage_decision-none :
    (readiness : Fields)
    → ((storage : Fields)
        → get_field "storage" readiness ≡ some (obj storage)
        → judge_storage readiness storage ≡ none)
    → storage_decision readiness ≡ none
unfolding storage_decision
storage_decision-none readiness h = elim (Option-cases (get_field "storage" readiness)) [
  | inl n ↦ rw (storage_decision, n) refl
  | inr (value, e) ↦
      rw (storage_decision, e)
        (judge_value-none readiness value (λ storage q. h storage (e ∙ ap some q)))
]

is_down_lem : (state : String) → (is_down state ≡ true) ↔ IsDownText state
unfolding IsDownText
is_down_lem state = (
  λ h. elim (Bool-cases (str_eq state "inactive")) [
    | inl t ↦ inl ((eq_iff state "inactive").0 t)
    | inr t ↦ inr ((eq_iff state "failed").0 (ground (arith, h, t)))
  ],
  λ d. elim d [ inl e ↦ rw e refl | inr e ↦ rw e refl ],
)

pub state_text_lem :
    (casefold : String → String) (service_state : Option String)
    → (is_down (state_text casefold service_state) ≡ true) ↔ IsDown casefold service_state
unfolding IsDown
state_text_lem casefold none = is_down_lem (casefold "")
state_text_lem casefold (some state) = is_down_lem (casefold state)

pub recovery_component-IsKnown :
    (name : String) → recovery_component name ≢ none → IsKnown (some name)
unfolding recovery_component IsKnown
recovery_component-IsKnown name n = elim (Bool-cases (str_eq name "app")) [
  | inl t ↦ inl (ap some ((eq_iff name "app").0 t))
  | inr a ↦ elim (Bool-cases (str_eq name "mcp")) [
    | inl t ↦ inr (inl (ap some ((eq_iff name "mcp").0 t)))
    | inr b ↦ elim (Bool-cases (str_eq name "proxy")) [
      | inl t ↦ inr (inr (inl (ap some ((eq_iff name "proxy").0 t))))
      | inr c ↦ elim (Bool-cases (str_eq name "tunnel")) [
        | inl t ↦ inr (inr (inr (inl (ap some ((eq_iff name "tunnel").0 t)))))
        | inr d ↦ elim (Bool-cases (str_eq name "database")) [
          | inl t ↦ inr (inr (inr (inr (ap some ((eq_iff name "database").0 t)))))
          | inr e ↦ absurd (n (rw (recovery_component, a, b, c, d, e) refl))
        ]
      ]
    ]
  ]
]

pub IsKnown-recovery_component :
    (component : Option String)
    → IsKnown component
    → (name : String) × (component ≡ some name) × (recovery_component name ≢ none)
unfolding recovery_component IsKnown
IsKnown-recovery_component component (inl e) = ("app", e, λ n. cc n)
IsKnown-recovery_component component (inr (inl e)) = ("mcp", e, λ n. cc n)
IsKnown-recovery_component component (inr (inr (inl e))) = ("proxy", e, λ n. cc n)
IsKnown-recovery_component component (inr (inr (inr (inl e)))) = ("tunnel", e, λ n. cc n)
IsKnown-recovery_component component (inr (inr (inr (inr e)))) = ("database", e, λ n. cc n)
