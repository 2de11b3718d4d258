-- ===== src/Config/Production.antt =====
-- config.py: what holds of the settings with which production starts.
use ai_hq.Prelude.{
  ◌≤◌, String, true, false, not, Option, none, some, ◌≡◌, refl, sym, subst, ◌⊎◌, arith, some_cancel,
}
use ai_hq.Prelude.Booleans.{false_of_not}
use ai_hq.Prelude.Result.{ok, ok_cancel}
use ai_hq.Prelude.Checks.{check_inv, bind_inv}
use ai_hq.Tables.System.{safe}
use ai_hq.Recovery.Bounded.{text_length}
use ai_hq.Config.Paths.{FilePath, Touches}
use ai_hq.Config.Settings.{
  Host, Settings, is_production, field_bounds, meets, apart_from, validate_repository_sandbox_paths,
  validate_production_repository_sources, validate_dripvid_mcp_paths, validate_recovery_policy,
  validate_production_security, settings,
}
use ai_hq.Config.Accepted.{HasTrustedSources, HasNoSources, sources_of, overlaps-Touches}

module _ (host : Host) where
  field_bounds-same : (s : Settings) {s' : Settings} → field_bounds s ≡ ok s' → s' ≡ s
  unfolding field_bounds
  field_bounds-same s h = ground arith

  meets-Touches :
      (sandbox : FilePath) (o : Option String) (source : String)
      → o ≡ some source
      → meets host sandbox o ≡ false
      → ¬ Touches (host.resolve source) sandbox
  meets-Touches sandbox none source e h = cc
  meets-Touches sandbox (some path) source e h =
      subst (λ p. ¬ Touches (host.resolve p) sandbox) (some_cancel e)
        (overlaps-Touches (host.resolve path) sandbox h)

  -- The sandbox is apart from a source of code.
  abbrev pub Apart : Option String → Option String → Type 0
  Apart sandbox source =
      (b p : String)
      → sandbox ≡ some b
      → source ≡ some p
      → ¬ Touches (host.resolve p) (host.resolve b)

  apart_from-Apart :
      (o : Option String) (s : Settings) {s' : Settings}
      → apart_from host o s ≡ ok s'
      → Apart o s.ai_hq_repository_source × Apart o s.dripvid_repository_source × (s' ≡ s)
  apart_from-Apart none s h = ((λ b p e. cc), (λ b p e. cc), sym (ok_cancel h))
  apart_from-Apart (some sandbox) s h =
      let path = host.resolve sandbox in
      let (first, rest) = check_inv (not (meets host path s.ai_hq_repository_source)) _ _ h in
      let (second, same) = check_inv (not (meets host path s.dripvid_repository_source)) _ _ rest in
      (
        (λ b p e k.
            subst (λ q. ¬ Touches (host.resolve p) (host.resolve q)) (some_cancel e)
              (meets-Touches path s.ai_hq_repository_source p k (false_of_not _ first))),
        (λ b p e k.
            subst (λ q. ¬ Touches (host.resolve p) (host.resolve q)) (some_cancel e)
              (meets-Touches path s.dripvid_repository_source p k (false_of_not _ second))),
        sym (ok_cancel same),
      )

  mcp_paths-same :
      (s : Settings) {s' : Settings} → validate_dripvid_mcp_paths host s ≡ ok s' → s' ≡ s
  unfolding validate_dripvid_mcp_paths
  mcp_paths-same s h = ground arith

  recovery_policy_inv :
      (s : Settings) {s' : Settings}
      → validate_recovery_policy host s ≡ ok s'
      → (s.recovery_cooldown_seconds ≤ s.recovery_budget_window_seconds) × (s' ≡ s)
  unfolding validate_recovery_policy
  recovery_policy_inv s h = ground arith

  -- What the last validator asks of settings in production.
  pub record IsSecure (s : Settings) : Type 0 where
    pub mode : s.operating_mode ≡ safe
    pub simulating : s.simulation_mode ≡ true
    pub secret : (text : String) × (s.session_secret ≡ some text) × (32 ≤ text_length text)
    pub hours : (1 ≤ s.session_lifetime_hours) × (s.session_lifetime_hours ≤ 24)

  security-IsSecure :
      (s : Settings) {s' : Settings}
      → is_production host s ≡ true
      → validate_production_security host s ≡ ok s'
      → IsSecure s × (s' ≡ s)
  unfolding validate_production_security
  security-IsSecure s p h = ground (arith, p)

  sandbox_inv :
      (s : Settings) {s' : Settings}
      → validate_repository_sandbox_paths host s ≡ ok s'
      → Apart s.repository_sandbox_root s.ai_hq_repository_source
        × Apart s.repository_sandbox_root s.dripvid_repository_source
        × (s' ≡ s)
  unfolding validate_repository_sandbox_paths
  sandbox_inv s h = apart_from-Apart s.repository_sandbox_root s h

  sources_inv :
      (s : Settings) {s' : Settings}
      → is_production host s ≡ true
      → validate_production_repository_sources host s ≡ ok s'
      → (HasNoSources host s ⊎ HasTrustedSources host s) × (s' ≡ s)
  unfolding validate_production_repository_sources
  sources_inv s p h =
      sources_of host s.repository_mirror_root s.repository_sandbox_root s.ai_hq_repository_source
        s.dripvid_repository_source s refl refl refl refl (rw p at h)

  pub record IsSafeProduction (s : Settings) : Type 0 where
    pub secure : IsSecure s
    pub window : s.recovery_cooldown_seconds ≤ s.recovery_budget_window_seconds
    pub sources : HasNoSources host s ⊎ HasTrustedSources host s
    pub ai_hq_apart : Apart s.repository_sandbox_root s.ai_hq_repository_source
    pub dripvid_apart : Apart s.repository_sandbox_root s.dripvid_repository_source

  -- Settings that production accepts are used as they are. With them production starts in safe mode,
  -- simulating, with a session secret of at least 32 characters and sessions of 1 to 24 hours, and
  -- the window of the recovery budget is at least the cooldown. Either no code is configured, or the
  -- mirror, the sandbox and both sources are: then both sources lie beneath the mirror and neither
  -- in nor at a directory that something is deployed in, and the sandbox neither contains nor lies in
  -- the mirror or a source.
  pub settings-IsSafeProduction :
      (s : Settings) {s' : Settings}
      → is_production host s ≡ true
      → settings host s ≡ ok s'
      → (s' ≡ s) × IsSafeProduction s
  unfolding settings
  settings-IsSafeProduction s {s'} p h =
      let (s5, h5, last) = bind_inv _ (validate_production_security host) h in
      let (s4, h4, fifth) = bind_inv _ (validate_recovery_policy host) h5 in
      let (s3, h3, fourth) = bind_inv _ (validate_dripvid_mcp_paths host) h4 in
      let (s2, h2, third) = bind_inv _ (validate_production_repository_sources host) h3 in
      let (s1, h1, second) =
        bind_inv (field_bounds s) (validate_repository_sandbox_paths host) h2 in
      let e1 = field_bounds-same s h1 in
      let (ai_hq_apart, dripvid_apart, e2) =
        sandbox_inv s (subst (λ q. validate_repository_sandbox_paths host q ≡ ok s2) e1 second) in
      let (sources, e3) =
        sources_inv s p
          (subst (λ q. validate_production_repository_sources host q ≡ ok s3) e2 third) in
      let e4 =
        mcp_paths-same s (subst (λ q. validate_dripvid_mcp_paths host q ≡ ok s4) e3 fourth) in
      let (window, e5) =
        recovery_policy_inv s (subst (λ q. validate_recovery_policy host q ≡ ok s5) e4 fifth) in
      let (secure, e6) =
        security-IsSecure s p (subst (λ q. validate_production_security host q ≡ ok s') e5 last) in
      (
        e6,
        record {
          secure = secure;
          window = window;
          sources = sources;
          ai_hq_apart = ai_hq_apart;
          dripvid_apart = dripvid_apart;
        },
      )
