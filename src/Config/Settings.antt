-- ===== src/Config/Settings.antt =====
-- config.py: the validators of `Settings`, and `validate_production_repository_paths` of
-- repository_source_policy.py. What the file system, the home directory, `urlsplit`, `ip_address` and
-- `casefold` say is a parameter. The host is no Windows. A negative number stands as 0, and the
-- settings that no validator reads are left out, with those that are no whole numbers.
use ai_hq.Prelude.{
  ℕ, String, Bool, true, false, not, ◌&&◌, ◌||◌, Option, none, some, List, [], ◌∷◌, str_eq, ltb,
  leb, any, if◌then◌else◌,
}
use Prim.Native.String.{[] as empty, ◌∷◌ as with_char}
use ai_hq.Prelude.Result.{Result, ok, err, value_error}
use ai_hq.Prelude.Checks.{◌>>=◌, check}
use ai_hq.Tables.System.{OperatingMode, same_mode, safe}
use ai_hq.Delivery.Identity.{starts_with, strip, is_set}
use ai_hq.Recovery.Bounded.{text_length}
use ai_hq.Config.Paths.{FilePath, same_path, contains, overlaps}

pub record Host : Type 0 where
  pub resolve : String → FilePath
  pub is_absolute : String → Bool
  pub casefold : String → String
  pub url_scheme : String → String
  pub url_host : String → Option String
  pub is_loopback : String → Bool

pub record Settings : Type 0 where
  pub environment : String
  pub operating_mode : OperatingMode
  pub simulation_mode : Bool
  pub root_path : String
  pub admin_password_hash : Option String
  pub session_secret : Option String
  pub session_lifetime_hours : ℕ
  pub repository_mirror_root : Option String
  pub repository_sandbox_root : Option String
  pub ai_hq_repository_source : Option String
  pub dripvid_repository_source : Option String
  pub dripvid_mcp_socket : String
  pub dripvid_mcp_token_file : Option String
  pub recovery_observation_seconds : ℕ
  pub recovery_failure_threshold : ℕ
  pub recovery_cooldown_seconds : ℕ
  pub recovery_attempt_budget : ℕ
  pub recovery_budget_window_seconds : ℕ
  pub recovery_verify_seconds : ℕ
  pub recovery_dripvid_ready_url : String

abbrev within : ℕ → ℕ → ℕ → Bool
within low high n = leb low n && leb n high

-- `"://" in text`
unfoldable pub has_scheme : String → Bool
unfolding starts_with
has_scheme empty = false
has_scheme (with_char c s) = let rest = has_scheme s in starts_with "://" (with_char c s) || rest

abbrev pub live_deployment_roots : List String
live_deployment_roots =
    "/opt/ai-hq/app" ∷ "/opt/ai-hq/current" ∷ "/opt/ai-hq/releases" ∷ "/opt/dripvid/app"
    ∷ "/opt/dripvid/current" ∷ "/opt/dripvid/releases" ∷ []

-- The bounds of the fields.
unfoldable pub field_bounds : Settings → Result Settings
field_bounds s =
    check
      (within 10 300 s.recovery_observation_seconds
        && within 2 10 s.recovery_failure_threshold
        && leb 60 s.recovery_cooldown_seconds
        && within 1 5 s.recovery_attempt_budget
        && leb 60 s.recovery_budget_window_seconds
        && within 10 300 s.recovery_verify_seconds)
      "field out of bounds" (ok s)

abbrev pub is_long : Option String → Bool
is_long none = false
is_long (some secret) = not (ltb (text_length secret) 32)

module _ (host : Host) where
  -- `Settings.is_production`
  abbrev pub is_production : Settings → Bool
  is_production s = str_eq (host.casefold s.environment) "production"

  -- A source that is configured overlaps the sandbox.
  abbrev pub meets : FilePath → Option String → Bool
  meets sandbox none = false
  meets sandbox (some source) = overlaps (host.resolve source) sandbox

  abbrev pub apart_from : Option String → Settings → Result Settings
  apart_from none s = ok s
  apart_from (some sandbox) s =
      check (not (meets (host.resolve sandbox) s.ai_hq_repository_source))
        "repository sandbox must not overlap the AI HQ repository source"
        (check (not (meets (host.resolve sandbox) s.dripvid_repository_source))
          "repository sandbox must not overlap the DripVid repository source" (ok s))

  -- `Settings.validate_repository_sandbox_paths`
  unfoldable pub validate_repository_sandbox_paths : Settings → Result Settings
  unfolding overlaps
  validate_repository_sandbox_paths s = apart_from s.repository_sandbox_root s

  -- The body of the loop over the sources.
  unfoldable pub source_check : FilePath → FilePath → Settings → Result Settings
  unfolding same_path contains
  source_check mirror source s =
      check (not (same_path source mirror || not (contains mirror source)))
        "repository source must be beneath the trusted repository mirror"
        (check (not (any (λ live. contains (host.resolve live) source) live_deployment_roots))
          "repository source must not use a live deployment path" (ok s))

  abbrev pub trusted_sources :
      Option String → Option String → Option String → Option String → Settings → Result Settings
  trusted_sources none none none none s = ok s
  trusted_sources (some mirror) (some sandbox) (some ai_hq_source) (some dripvid) s =
      check (not (overlaps (host.resolve mirror) (host.resolve sandbox)))
        "repository sandbox must not overlap the trusted repository mirror"
        (source_check (host.resolve mirror) (host.resolve ai_hq_source) s
          >>= source_check (host.resolve mirror) (host.resolve dripvid))
  trusted_sources _ _ _ _ s = err (
      value_error
        "production code changes require a trusted repository mirror, repository sandbox, AI HQ source, and DripVid source")

  -- `validate_production_repository_paths`, for the paths of the settings.
  unfoldable pub validate_production_repository_sources : Settings → Result Settings
  unfolding overlaps source_check
  validate_production_repository_sources s =
      if is_production s
      then trusted_sources s.repository_mirror_root s.repository_sandbox_root
          s.ai_hq_repository_source s.dripvid_repository_source s
      else ok s

  abbrev pub is_absolute_or_none : Option String → Bool
  is_absolute_or_none none = true
  is_absolute_or_none (some path) = host.is_absolute path

  -- `Settings.validate_dripvid_mcp_paths`
  unfoldable pub validate_dripvid_mcp_paths : Settings → Result Settings
  unfolding has_scheme strip
  validate_dripvid_mcp_paths s =
      if is_production s
      then check (not (has_scheme (strip s.dripvid_mcp_socket)))
          "AI HQ production DripVid MCP socket must be an absolute Unix path"
          (check (host.is_absolute s.dripvid_mcp_socket)
            "AI HQ production DripVid MCP socket must be an absolute Unix path"
            (check (is_absolute_or_none s.dripvid_mcp_token_file)
              "AI HQ production DripVid MCP token path must be absolute" (ok s)))
      else ok s

  abbrev pub is_loopback_host : Option String → Bool
  is_loopback_host none = false
  is_loopback_host (some name) =
      not (str_eq name "") && (str_eq (host.casefold name) "localhost" || host.is_loopback name)

  -- `Settings.validate_recovery_policy`
  unfoldable pub validate_recovery_policy : Settings → Result Settings
  validate_recovery_policy s =
      check (not (ltb s.recovery_budget_window_seconds s.recovery_cooldown_seconds))
        "AI HQ recovery budget window must be at least as long as the recovery cooldown"
        (if is_production s
          then check
              (str_eq (host.casefold (host.url_scheme s.recovery_dripvid_ready_url)) "http"
                && is_loopback_host (host.url_host s.recovery_dripvid_ready_url))
              "AI HQ production recovery readiness URL must use loopback HTTP" (ok s)
          else ok s)

  -- `Settings.validate_production_security`
  unfoldable pub validate_production_security : Settings → Result Settings
  unfolding text_length starts_with
  validate_production_security s =
      if is_production s
      then check (is_set s.admin_password_hash)
          "AI HQ admin password hash is required in production"
          (check (is_long s.session_secret)
            "AI HQ session secret must be at least 32 characters in production"
            (check (same_mode s.operating_mode safe)
              "AI HQ production must start in safe operating mode"
              (check s.simulation_mode "AI HQ production must start with simulation mode enabled" (
                check (starts_with "/" s.root_path && not (str_eq s.root_path "/"))
                  "AI HQ root path must be a non-root absolute path"
                  (check (not (ltb s.session_lifetime_hours 1 || ltb 24 s.session_lifetime_hours))
                    "AI HQ session lifetime must be between 1 and 24 hours" (ok s))))))
      else ok s

  -- `Settings(...)`: the bounds, and the validators in their order.
  unfoldable pub settings : Settings → Result Settings
  unfolding field_bounds validate_repository_sandbox_paths validate_production_repository_sources
      validate_dripvid_mcp_paths validate_recovery_policy validate_production_security
  settings s =
      field_bounds s
      >>= validate_repository_sandbox_paths
      >>= validate_production_repository_sources
      >>= validate_dripvid_mcp_paths
      >>= validate_recovery_policy
      >>= validate_production_security
