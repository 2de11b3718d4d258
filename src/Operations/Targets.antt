-- ===== src/Operations/Targets.antt =====
-- operations/targets.py: the registered targets.
use ai_hq.Prelude.{
  true, false, not, ◌||◌, ◌==◌, String, Bool, Option, none, some, List, [], ◌∷◌, if◌then◌else◌,
  str_eq, any,
}
use ai_hq.Prelude.Result.{Result, ok, err, value_error}
use ai_hq.Prelude.Rows.{find}
use ai_hq.Prelude.Checks.{check}
use Prim.Native.Char.{code}
use Prim.Native.String.{[] as empty, ◌∷◌ as with_char}
use ai_hq.Delivery.Identity.{is_blank}

pub record OperationalTarget : Type 0 where
  pub key : String
  pub service_unit : String
  pub allowed_capabilities : List String
  pub health_url : Option String
  pub log_unit : Option String
  pub deploy_entrypoint : Option (List String)
  pub rollback_entrypoint : Option (List String)
  pub host_helper_service_target : Option String
  pub host_helper_log_target : Option String

-- `"*" in text`
unfoldable pub has_star : String → Bool
has_star empty = false
has_star (with_char c s) = let rest = has_star s in code c == 42 || rest

abbrev is_bad_capability : String → Bool
is_bad_capability capability = is_blank capability || has_star capability

-- `value is not None and not value.strip()`
abbrev is_given_blank : Option String → Bool
is_given_blank none = false
is_given_blank (some s) = is_blank s

abbrev is_bad_entrypoint : Option (List String) → Bool
is_bad_entrypoint none = false
is_bad_entrypoint (some []) = true
is_bad_entrypoint (some (part ∷ parts)) = any (str_eq "") (part ∷ parts)

abbrev is_empty : List String → Bool
is_empty [] = true
is_empty (x ∷ xs) = false

-- `OperationalTarget.__post_init__`
unfoldable pub operational_target : OperationalTarget → Result OperationalTarget
unfolding is_blank has_star
operational_target t = check (not (is_blank t.key)) "operational target key is required" (
    check (not (is_blank t.service_unit)) "service unit is required" (
      check (not (is_empty t.allowed_capabilities)) "operational target requires capabilities" (
        check (not (any is_bad_capability t.allowed_capabilities)) "invalid operational capability"
          (check (not (is_given_blank t.log_unit)) "log unit cannot be empty" (
            check (not (is_given_blank t.host_helper_service_target))
              "host helper service target cannot be empty"
              (check (not (is_given_blank t.host_helper_log_target))
                "host helper log target cannot be empty"
                (check
                  (not (
                    is_bad_entrypoint t.deploy_entrypoint
                    || is_bad_entrypoint t.rollback_entrypoint))
                  "invalid operational entrypoint" (ok t))))))))

-- `OperationalTarget.allows`
abbrev pub allows : OperationalTarget → String → Bool
allows target capability = any (λ c. str_eq c capability) target.allowed_capabilities

abbrev pub has_key : String → OperationalTarget → Bool
has_key key target = str_eq target.key key

-- The dict `_targets`; its keys are the keys of its values.
pub record OperationalTargetRegistry : Type 0 where
  pub targets : List OperationalTarget

-- `OperationalTargetRegistry.__init__`, after some targets have been taken in.
unfoldable add_targets :
    List OperationalTarget → List OperationalTarget → Result OperationalTargetRegistry
add_targets done [] = ok (record { targets = done })
add_targets done (t ∷ ts) =
    let rest = add_targets (t ∷ done) ts in
    if any (has_key t.key) done then err (value_error "duplicate operational target") else rest

unfoldable pub target_registry : List OperationalTarget → Result OperationalTargetRegistry
unfolding add_targets
target_registry targets = add_targets [] targets

-- `OperationalTargetRegistry.resolve`
unfoldable pub resolve_target : OperationalTargetRegistry → String → Option OperationalTarget
unfolding find
resolve_target registry key = find (has_key key) registry.targets

unfoldable pub require : OperationalTargetRegistry → String → Result OperationalTarget
unfolding resolve_target
require registry key = elim (resolve_target registry key) [
  | none ↦ err (value_error "unknown operational target")
  | some target ↦ ok target
]
