-- ===== src/Recovery/Decisions.antt =====
-- recovery/policy.py: when the recovery policy asks for a recovery.
use ai_hq.Prelude.{
  ℕ, ◌≤◌, String, true, false, Option, none, some, str_eq, ◌≡◌, ◌≢◌, ◌↔◌, refl, sym, ◌∙◌, subst,
  arith, Bool-cases, Option-cases, inl, inr, ltb,
}
use ai_hq.Json.{Json, Fields, get_field, null, bool, num, text, arr, obj}
use ai_hq.Recovery.Conditions.{
  MayRecover, IsKnown, is_bool_true_lem, judge_storage-none, storage_decision-obj,
  storage_decision-none, state_text_lem, recovery_component-IsKnown, IsKnown-recovery_component,
}
use ai_hq.Recovery.Policy.{
  recover, decide_recovery, storage_decision, is_bool, is_down, state_text, recovery_component,
  judge_component, judge_service, judge_storage, judge_value, RecoveryDecision, is_recoverable,
}

-- What the branches of the policy ask.
record Passes (casefold : String → String) (component service_state : Option String)
    (failures threshold : ℕ) (readiness : Fields) : Type 0 where
  storage : storage_decision readiness ≡ none
  unready : is_bool true (get_field "ok" readiness) ≡ false
  often : threshold ≤ failures
  name : String
  named : component ≡ some name
  known : recovery_component name ≢ none
  down : is_down (state_text casefold service_state) ≡ true

judge_service-recover :
    (readiness : Fields) (component state : String)
    → ((judge_service readiness component state).action ≡ recover) ↔ (is_down state ≡ true)
unfolding judge_service
judge_service-recover readiness component state = elim (Bool-cases (str_eq component "database")) [
  | inl t ↦ rw t (λ h. ground (arith, h), λ h. ground (arith, h))
  | inr t ↦ rw t (λ h. ground (arith, h), λ h. ground (arith, h))
]

judge_storage-calm :
    (readiness storage : Fields) (d : RecoveryDecision)
    → judge_storage readiness storage ≡ some d
    → d.action ≢ recover
unfolding judge_storage
judge_storage-calm readiness storage d h k = ground (arith, h, k)

judge_value-calm :
    (readiness : Fields) (value : Json) (d : RecoveryDecision)
    → judge_value readiness value ≡ some d
    → d.action ≢ recover
unfolding judge_value
judge_value-calm readiness (obj fs) d h = judge_storage-calm readiness fs d h
judge_value-calm readiness null d h = cc
judge_value-calm readiness (bool b) d h = cc
judge_value-calm readiness (num n) d h = cc
judge_value-calm readiness (text s) d h = cc
judge_value-calm readiness (arr xs) d h = cc

storage_decision-calm :
    (readiness : Fields) (d : RecoveryDecision)
    → storage_decision readiness ≡ some d
    → d.action ≢ recover
unfolding storage_decision
storage_decision-calm readiness d h = elim (Option-cases (get_field "storage" readiness)) [
  | inl n ↦ cc (rw (storage_decision, n) at h)
  | inr (value, e) ↦ judge_value-calm readiness value d (rw (storage_decision, e) at h)
]

judge_component-recover :
    (readiness : Fields) (state : String) (component : Option String)
    → (judge_component readiness state component).action ≡ recover
    → (name : String) × (component ≡ some name)
      × (recovery_component name ≢ none)
      × (is_down state ≡ true)
unfolding judge_component
judge_component-recover readiness state none h = cc h
judge_component-recover readiness state (some name) h =
    elim (Option-cases (recovery_component name)) [
      | inl n ↦ cc (rw (judge_component, n) at h)
      | inr (c, e) ↦ elim (Bool-cases c.recoverable) [
        | inl t ↦ (
          name,
          refl,
          λ n. cc (n, e),
          (judge_service-recover readiness name state).0 (rw (judge_component, e, t) at h),
        )
        | inr t ↦ cc (rw (judge_component, e, t) at h)
      ]
    ]

recoverable_lem :
    (name : String)
    → recovery_component name ≢ none
    → is_recoverable (recovery_component name) ≡ true
unfolding recovery_component
recoverable_lem name n = ground (arith, n)

module _ (casefold : String → String) (component service_state : Option String)
    (failures threshold : ℕ) (readiness : Fields) where
  of_decision :
      (decide_recovery casefold component service_state failures threshold readiness).action
        ≡ recover
      → Passes casefold component service_state failures threshold readiness
  unfolding decide_recovery
  of_decision h = elim (Option-cases (storage_decision readiness)) [
    | inr (d, e) ↦ absurd (storage_decision-calm readiness d e (rw (decide_recovery, e) at h))
    | inl e ↦ elim (Bool-cases (is_bool true (get_field "ok" readiness))) [
      | inl t ↦ cc (rw (decide_recovery, e, t) at h)
      | inr t ↦ elim (Bool-cases (ltb failures threshold)) [
        | inl u ↦ cc (rw (decide_recovery, e, t, u) at h)
        | inr u ↦
            let (name, named, known, down) =
              judge_component-recover readiness (state_text casefold service_state) component
                (rw (decide_recovery, e, t, u) at h) in
            record {
              storage = e;
              unready = t;
              often = ground (arith, u);
              name = name;
              named = named;
              known = known;
              down = down;
            }
      ]
    ]
  ]

  of_conditions :
      Passes casefold component service_state failures threshold readiness
      → (decide_recovery casefold component service_state failures threshold readiness).action
        ≡ recover
  unfolding decide_recovery judge_component
  of_conditions m =
      let u : ltb failures threshold ≡ false = let o = m.often in ground arith in
      rw
        (
          decide_recovery,
          m.storage,
          m.unready,
          u,
          m.named,
          judge_component,
          recoverable_lem m.name m.known,
        )
        ((judge_service-recover readiness m.name (state_text casefold service_state)).1 m.down)

  Passes-MayRecover :
      Passes casefold component service_state failures threshold readiness
      → MayRecover casefold component service_state failures threshold readiness
  Passes-MayRecover p =
      let calm : (storage : Fields)
          → get_field "storage" readiness ≡ some (obj storage)
          → judge_storage readiness storage ≡ none =
        λ storage e. sym (storage_decision-obj readiness storage e) ∙ p.storage in
      record {
        unready = (is_bool_true_lem (get_field "ok" readiness)).0 p.unready;
        available =
            λ storage e. ((judge_storage-none readiness storage p.unready).0 (calm storage e)).0;
        writable =
            λ storage e. ((judge_storage-none readiness storage p.unready).0 (calm storage e)).1;
        often = p.often;
        known = subst IsKnown (sym p.named) (recovery_component-IsKnown p.name p.known);
        down = (state_text_lem casefold service_state).0 p.down;
      }

  MayRecover-Passes :
      MayRecover casefold component service_state failures threshold readiness
      → Passes casefold component service_state failures threshold readiness
  MayRecover-Passes m =
      let unready = (is_bool_true_lem (get_field "ok" readiness)).1 m.unready in
      let (name, named, known) = IsKnown-recovery_component component m.known in
      record {
        storage = storage_decision-none readiness (λ storage e.
            (judge_storage-none readiness storage unready).1
              (m.available storage e, m.writable storage e));
        unready = unready;
        often = m.often;
        name = name;
        named = named;
        known = known;
        down = (state_text_lem casefold service_state).1 m.down;
      }

  -- The policy asks for a recovery exactly if the readiness neither says `ok` nor reports a storage
  -- that is unavailable or unwritable, the failures reach the threshold, the component is the app,
  -- the mcp, the proxy, the tunnel or the database, and the state of its service, casefolded, is
  -- `inactive` or `failed`.
  pub recover_iff :
      ((decide_recovery casefold component service_state failures threshold readiness).action
        ≡ recover)
      ↔ MayRecover casefold component service_state failures threshold readiness
  recover_iff = (λ h. Passes-MayRecover (of_decision h), λ m. of_conditions (MayRecover-Passes m))
