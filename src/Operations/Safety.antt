-- ===== src/Operations/Safety.antt =====
-- operations/adapters.py: what reaches the transport.
use ai_hq.Prelude.{
  ◌≤◌, String, Bool, true, false, Option, none, some, ◌≡◌, ◌≢◌, refl, sym, ap, ◌∙◌, inl, inr, arith,
  Bool-cases, Option-cases, str_eq, eq_iff, ltb, all, ◌||◌,
}
use ai_hq.Prelude.Result.{Result, ok, Result-cases, ok_cancel}
use ai_hq.Json.{Json, null, bool, num, text, arr, obj, get_field, keys}
use ai_hq.Tools.{ToolRequest}
use ai_hq.Recovery.Policy.{recovery_component}
use ai_hq.Operations.Targets.{OperationalTarget, OperationalTargetRegistry, allows, resolve_target}
use ai_hq.Operations.Adapters.{
  OperationalAdapter, system_health, service_status, service_logs, service_restart, service_recover,
  deployment_deploy, deployment_rollback, capability_of, TransportCall, read_health, read_status,
  read_logs, restart, recover_component, deploy, roll_back, OperationalTransport, target_of, when,
  is_end, log_lines, has_only, is_known, recover_call, is_release_id, rollback_call, call_for,
  operate,
}

abbrev pub is_mutation : TransportCall → Bool
is_mutation (read_health t) = false
is_mutation (read_status t) = false
is_mutation (read_logs t n) = false
is_mutation (restart t) = true
is_mutation (recover_component t c) = true
is_mutation (deploy t) = true
is_mutation (roll_back t id) = true

abbrev pub target_in : TransportCall → OperationalTarget
target_in (read_health t) = t
target_in (read_status t) = t
target_in (read_logs t n) = t
target_in (restart t) = t
target_in (recover_component t c) = t
target_in (deploy t) = t
target_in (roll_back t id) = t

-- What the arguments of a call are limited to.
abbrev pub IsLimited : TransportCall → Type 0
IsLimited (read_logs t n) = (1 ≤ n) × (n ≤ 500)
IsLimited (recover_component t c) = (t.key ≡ "dripvid") × (recovery_component c ≢ none)
IsLimited (roll_back t id) = is_release_id id ≡ true
IsLimited _ = Unit

-- What a call says of the request that led to it, once the target is known.
pub record IsAllowed (r : ToolRequest) (target : OperationalTarget) (call : TransportCall)
    : Type 0 where
  pub aimed : target_in call ≡ target
  pub flagged : is_mutation call ≡ true → r.mutates_external_state ≡ true
  pub limited : IsLimited call

when_ok :
    {b : Bool} (message : String) {rest : Result TransportCall} {call : TransportCall}
    → when b message rest ≡ ok call
    → (b ≡ true) × (rest ≡ ok call)
when_ok {b} message h = elim (Bool-cases b) [ inl t ↦ (t, rw t at h) | inr t ↦ cc (rw t at h) ]

known_not-none : (c : String) → is_known c ≡ true → recovery_component c ≢ none
known_not-none c h n = cc (rw (is_known, n) at h)

module _ (r : ToolRequest) (target : OperationalTarget) (transport : OperationalTransport)
    (call : TransportCall) where
  log_lines-IsAllowed : (o : Option Json) → log_lines target o ≡ ok call → IsAllowed r target call
  unfolding log_lines
  log_lines-IsAllowed none h =
      let e = ok_cancel h in
      rw (sym e)
        (record { aimed = refl; flagged = λ f. cc f; limited = (omega arith, omega arith) })
  log_lines-IsAllowed (some (num n)) h = elim (Bool-cases (ltb n 1 || ltb 500 n)) [
    | inl t ↦ cc (rw (log_lines, t) at h)
    | inr t ↦
        let e = ok_cancel (rw (log_lines, t) at h) in
        rw (sym e) (record {
          aimed = refl;
          flagged = λ f. cc f;
          limited = (ground (arith, t), ground (arith, t));
        })
  ]
  log_lines-IsAllowed (some null) h = cc h
  log_lines-IsAllowed (some (bool b)) h = cc h
  log_lines-IsAllowed (some (text s)) h = cc h
  log_lines-IsAllowed (some (arr xs)) h = cc h
  log_lines-IsAllowed (some (obj fs)) h = cc h

  recover_call-IsAllowed :
      (m : Bool) (o : Option Json)
      → (m ≡ true → r.mutates_external_state ≡ true)
      → target.key ≡ "dripvid"
      → recover_call transport target m o ≡ ok call
      → IsAllowed r target call
  unfolding recover_call
  recover_call-IsAllowed m (some (text c)) flag key h =
      let (known, h1) = when_ok _ h in
      let (t, h2) = when_ok _ h1 in
      let (_, h3) = when_ok _ h2 in
      let e : recover_component target c ≡ call = ok_cancel h3 in
      rw (sym e)
        (record { aimed = refl; flagged = λ f. flag t; limited = (key, known_not-none c known) })
  recover_call-IsAllowed m none flag key h = cc h
  recover_call-IsAllowed m (some null) flag key h = cc h
  recover_call-IsAllowed m (some (bool b)) flag key h = cc h
  recover_call-IsAllowed m (some (num n)) flag key h = cc h
  recover_call-IsAllowed m (some (arr xs)) flag key h = cc h
  recover_call-IsAllowed m (some (obj fs)) flag key h = cc h

  rollback_call-IsAllowed :
      (m : Bool) (o : Option Json)
      → (m ≡ true → r.mutates_external_state ≡ true)
      → rollback_call transport target m o ≡ ok call
      → IsAllowed r target call
  unfolding rollback_call
  rollback_call-IsAllowed m (some (text id)) flag h =
      let (good, h1) = when_ok _ h in
      let (t, h2) = when_ok _ h1 in
      let (_, h3) = when_ok _ h2 in
      let e : roll_back target id ≡ call = ok_cancel h3 in
      rw (sym e) (record { aimed = refl; flagged = λ f. flag t; limited = good })
  rollback_call-IsAllowed m none flag h = cc h
  rollback_call-IsAllowed m (some null) flag h = cc h
  rollback_call-IsAllowed m (some (bool b)) flag h = cc h
  rollback_call-IsAllowed m (some (num n)) flag h = cc h
  rollback_call-IsAllowed m (some (arr xs)) flag h = cc h
  rollback_call-IsAllowed m (some (obj fs)) flag h = cc h

  call_for-IsAllowed :
      (adapter : OperationalAdapter)
      → call_for adapter transport r target ≡ ok call
      → IsAllowed r target call
  unfolding call_for
  call_for-IsAllowed system_health h =
      let (_, h1) = when_ok {b = is_end r.params} "unexpected_operational_parameters" h in
      let e : read_health target ≡ call = ok_cancel h1 in
      rw (sym e) (record { aimed = refl; flagged = λ f. cc f; limited = tt })
  call_for-IsAllowed service_status h =
      let (_, h1) = when_ok {b = is_end r.params} "unexpected_operational_parameters" h in
      let e : read_status target ≡ call = ok_cancel h1 in
      rw (sym e) (record { aimed = refl; flagged = λ f. cc f; limited = tt })
  call_for-IsAllowed service_logs h =
      let (_, h1) =
        when_ok {b = all (λ k. str_eq k "lines") (keys r.params)}
          "unexpected_operational_parameters" h in
      log_lines-IsAllowed (get_field "lines" r.params) h1
  call_for-IsAllowed service_restart h =
      let (t, h1) = when_ok _ (when_ok _ h).1 in
      let e : restart target ≡ call = ok_cancel h1 in
      rw (sym e) (record { aimed = refl; flagged = λ f. t; limited = tt })
  call_for-IsAllowed service_recover h =
      let (k, h1) = when_ok _ h in
      let (_, h2) = when_ok _ h1 in
      recover_call-IsAllowed r.mutates_external_state _ (λ t. t) ((eq_iff target.key "dripvid").0 k)
        h2
  call_for-IsAllowed deployment_deploy h =
      let (t, h1) = when_ok _ (when_ok _ h).1 in
      let e : deploy target ≡ call = ok_cancel (when_ok _ h1).1 in
      rw (sym e) (record { aimed = refl; flagged = λ f. t; limited = tt })
  call_for-IsAllowed deployment_rollback h =
      let (_, h1) = when_ok {b = has_only "release_id" r.params} "invalid_rollback_parameters" h in
      rollback_call-IsAllowed r.mutates_external_state (get_field "release_id" r.params) (λ t. t) h1

-- What the request, the registered target and the call have to do with each other.
pub record IsSound (adapter : OperationalAdapter) (targets : OperationalTargetRegistry)
    (r : ToolRequest) (call : TransportCall) : Type 0 where
  pub capability : r.capability ≡ capability_of adapter
  pub registered : resolve_target targets r.target ≡ some (target_in call)
  pub permitted : allows (target_in call) r.capability ≡ true
  pub flagged : is_mutation call ≡ true → r.mutates_external_state ≡ true
  pub limited : IsLimited call

target_of_lem :
    (adapter : OperationalAdapter) (targets : OperationalTargetRegistry) (r : ToolRequest)
    (target : OperationalTarget)
    → target_of adapter targets r ≡ ok target
    → (r.capability ≡ capability_of adapter)
      × (resolve_target targets r.target ≡ some target)
      × (allows target r.capability ≡ true)
unfolding target_of
target_of_lem adapter targets r target h =
    elim (Bool-cases (str_eq r.capability (capability_of adapter))) [
      | inr t ↦ cc (rw (target_of, t) at h)
      | inl t ↦
          let same = (eq_iff r.capability (capability_of adapter)).0 t in
          elim (Option-cases (resolve_target targets r.target)) [
            | inl n ↦ cc (rw (target_of, t, n) at h)
            | inr (found, e) ↦ elim (Bool-cases (allows found (capability_of adapter))) [
              | inr u ↦ cc (rw (target_of, t, e, u) at h)
              | inl u ↦
                  let q : found ≡ target = ok_cancel (rw (target_of, t, e, u) at h) in
                  (same, e ∙ ap some q, rw (sym q, same) u)
            ]
          ]
    ]

-- A request that leads an adapter to a call of the transport names the adapter's capability and a
-- registered target that allows it, and the call is for that target; a call that changes something
-- needs the request's mutation flag; log lines are 1 to 500, a component is a known one of
-- dripvid, and a release id is well-formed.
pub operate-IsSound :
    (adapter : OperationalAdapter) (targets : OperationalTargetRegistry)
    (transport : OperationalTransport) (r : ToolRequest) (call : TransportCall)
    → operate adapter targets transport r ≡ ok call
    → IsSound adapter targets r call
unfolding operate
operate-IsSound adapter targets transport r call h =
    elim (Result-cases (target_of adapter targets r)) [
      | inl (e, f) ↦ cc (rw (operate, f) at h)
      | inr (target, f) ↦
          let (capability, registered, permitted) = target_of_lem adapter targets r target f in
          let a = call_for-IsAllowed r target transport call adapter (rw (operate, f) at h) in
          let aim = a.aimed in
          record {
            capability = capability;
            registered = registered ∙ ap some (sym aim);
            permitted = rw aim permitted;
            flagged = a.flagged;
            limited = a.limited;
          }
    ]
