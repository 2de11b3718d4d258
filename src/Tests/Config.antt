-- ===== src/Tests/Config.antt =====
-- Settings of production.
use ai_hq.Prelude.{true, none, some, ◌≡◌, refl, str_eq}
use ai_hq.Prelude.Result.{ok, err, value_error}
use ai_hq.Tables.System.{freeze, safe}
use ai_hq.Delivery.Identity.{starts_with}
use ai_hq.CodeChanges.Store.{segments}
use ai_hq.Config.Settings.{Host, Settings, settings}
use ai_hq.Config.Production.{IsSafeProduction, settings-IsSafeProduction}

abbrev host : Host
host = record {
  resolve = segments;
  is_absolute = starts_with "/";
  casefold = λ s. s;
  url_scheme = λ url. "http";
  url_host = λ url. some "127.0.0.1";
  is_loopback = λ name. str_eq name "127.0.0.1";
}

abbrev production : Settings
production = record {
  environment = "production";
  operating_mode = safe;
  simulation_mode = true;
  root_path = "/ai-hq";
  admin_password_hash = some "hash";
  session_secret = some "0123456789abcdef0123456789abcdef";
  session_lifetime_hours = 12;
  repository_mirror_root = some "/mirror";
  repository_sandbox_root = some "/sandbox";
  ai_hq_repository_source = some "/mirror/ai-hq";
  dripvid_repository_source = some "/mirror/dripvid";
  dripvid_mcp_socket = "/run/dripvid-mcp/mcp.sock";
  dripvid_mcp_token_file = none;
  recovery_observation_seconds = 30;
  recovery_failure_threshold = 3;
  recovery_cooldown_seconds = 300;
  recovery_attempt_budget = 2;
  recovery_budget_window_seconds = 3600;
  recovery_verify_seconds = 60;
  recovery_dripvid_ready_url = "http://127.0.0.1:3000/health/ready";
}

production_accepted : settings host production ≡ ok production
unfolding settings segments starts_with
production_accepted = refl

settings-IsSafeProduction_example : (production ≡ production) × IsSafeProduction host production
settings-IsSafeProduction_example =
    settings-IsSafeProduction host production refl production_accepted

-- A frozen start is refused in production.
frozen_refused :
    settings host (record production { operating_mode = freeze })
    ≡ err (value_error "AI HQ production must start in safe operating mode")
unfolding settings segments starts_with
frozen_refused = refl

live_refused :
    settings host (record production {
      repository_mirror_root = some "/opt/ai-hq";
      ai_hq_repository_source = some "/opt/ai-hq/app/src";
    })
    ≡ err (value_error "repository source must not use a live deployment path")
unfolding settings segments starts_with
live_refused = refl
