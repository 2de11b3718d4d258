-- ===== src/Config/Accepted.antt =====
-- config.py: what holds of the settings that the validators accept in production.
use ai_hq.Prelude.{
  String, Bool, true, false, not, ◌||◌, Option, none, some, List, [], ◌∷◌, any, ◌≡◌, refl, sym,
  subst, ◌∙◌, ◌⊎◌, inl, inr, All,
}
use ai_hq.Prelude.Booleans.{or_both_false, false_of_not}
use ai_hq.Prelude.Result.{ok, ok_cancel}
use ai_hq.Prelude.Checks.{check_inv, bind_inv}
use ai_hq.Config.Paths.{
  FilePath, same_path, is_parent, contains, overlaps, Beneath, Touches, same_path_refl,
  is_parent-Beneath, is_parent-beneath,
}
use ai_hq.Config.Settings.{Host, Settings, live_deployment_roots, source_check, trusted_sources}

-- Not even the root itself, and nothing in it.
abbrev pub Outside : FilePath → FilePath → Type 0
Outside root path = ¬ ((path ≡ root) ⊎ Beneath root path)

parent_of_Beneath : (root path : FilePath) → Beneath root path → is_parent root path ≡ true
parent_of_Beneath root path (name, rest, e) =
    subst (λ q. is_parent root q ≡ true) (sym e) (is_parent-beneath root name rest)

pub overlaps-Touches : (a b : FilePath) → overlaps a b ≡ false → ¬ Touches a b
unfolding overlaps
overlaps-Touches a b h t =
    let (others, above) = or_both_false (same_path a b || is_parent a b) (is_parent b a) h in
    let (equal, below) = or_both_false (same_path a b) (is_parent a b) others in
    elim t [
      | inl e ↦ cc (equal, subst (λ q. same_path a q ≡ true) e (same_path_refl a))
      | inr (inl b_below) ↦ cc (below, parent_of_Beneath a b b_below)
      | inr (inr a_below) ↦ cc (above, parent_of_Beneath b a a_below)
    ]

pub contains-Outside : (root path : FilePath) → contains root path ≡ false → Outside root path
unfolding contains
contains-Outside root path h t =
    let (equal, below) = or_both_false (same_path path root) (is_parent root path) h in
    elim t [
      | inl e ↦ cc (equal, subst (λ q. same_path path q ≡ true) e (same_path_refl path))
      | inr b ↦ cc (below, parent_of_Beneath root path b)
    ]

any-All :
    (host : Host) (path : FilePath) (roots : List String)
    → any (λ live. contains (host.resolve live) path) roots ≡ false
    → All (λ live. Outside (host.resolve live) path) roots
any-All host path [] h = tt
any-All host path (r ∷ rs) h =
    let (first, others) =
      or_both_false (contains (host.resolve r) path)
        (any (λ live. contains (host.resolve live) path) rs) h in
    (contains-Outside (host.resolve r) path first, any-All host path rs others)

true_of_not : (b : Bool) → not b ≡ false → b ≡ true
true_of_not true h = refl
true_of_not false h = cc

mirrored_by :
    (mirror source : FilePath)
    → same_path source mirror ≡ false
    → contains mirror source ≡ true
    → Beneath mirror source
unfolding contains
mirrored_by mirror source other inside =
    is_parent-Beneath mirror source
      (subst (λ b. (b || is_parent mirror source) ≡ true) other inside)

module _ (host : Host) where
  -- A source of code: in the mirror, and in no directory that something runs from.
  pub record IsTrusted (mirror source : FilePath) : Type 0 where
    pub mirrored : Beneath mirror source
    pub not_live : All (λ live. Outside (host.resolve live) source) live_deployment_roots

  source_check-IsTrusted :
      (mirror source : FilePath) (s : Settings) {s' : Settings}
      → source_check host mirror source s ≡ ok s'
      → IsTrusted mirror source × (s' ≡ s)
  unfolding source_check
  source_check-IsTrusted mirror source s h =
      let is_live = any (λ live. contains (host.resolve live) source) live_deployment_roots in
      let (beneath, rest) =
        check_inv (not (same_path source mirror || not (contains mirror source))) _ _ h in
      let (away, same) = check_inv (not is_live) _ _ rest in
      let (other, inside) =
        or_both_false (same_path source mirror) (not (contains mirror source))
          (false_of_not _ beneath) in
      (
        record {
          mirrored = mirrored_by mirror source other (true_of_not (contains mirror source) inside);
          not_live = any-All host source live_deployment_roots (false_of_not is_live away);
        },
        sym (ok_cancel same),
      )

  -- Either no source of code is configured, or all four paths are, and the sources are trusted and
  -- apart from the sandbox, as the mirror is.
  pub record HasTrustedSources (s : Settings) : Type 0 where
    pub mirror : String
    pub sandbox : String
    pub ai_hq_source : String
    pub dripvid_source : String
    pub mirror_set : s.repository_mirror_root ≡ some mirror
    pub sandbox_set : s.repository_sandbox_root ≡ some sandbox
    pub ai_hq_set : s.ai_hq_repository_source ≡ some ai_hq_source
    pub dripvid_set : s.dripvid_repository_source ≡ some dripvid_source
    pub mirror_apart : ¬ Touches (host.resolve mirror) (host.resolve sandbox)
    pub ai_hq_trusted : IsTrusted (host.resolve mirror) (host.resolve ai_hq_source)
    pub dripvid_trusted : IsTrusted (host.resolve mirror) (host.resolve dripvid_source)

  pub record HasNoSources (s : Settings) : Type 0 where
    pub no_mirror : s.repository_mirror_root ≡ none
    pub no_sandbox : s.repository_sandbox_root ≡ none
    pub no_ai_hq : s.ai_hq_repository_source ≡ none
    pub no_dripvid : s.dripvid_repository_source ≡ none

  all_sources_inv :
      (mirror sandbox ai_hq_source dripvid_source : String) (s : Settings) {s' : Settings}
      → trusted_sources host
          (some mirror)
          (some sandbox)
          (some ai_hq_source)
          (some dripvid_source)
          s
        ≡ ok s'
      → (¬ Touches (host.resolve mirror) (host.resolve sandbox))
        × IsTrusted (host.resolve mirror) (host.resolve ai_hq_source)
        × IsTrusted (host.resolve mirror) (host.resolve dripvid_source)
        × (s' ≡ s)
  all_sources_inv mirror sandbox ai_hq_source dripvid_source s h =
      let meets = overlaps (host.resolve mirror) (host.resolve sandbox) in
      let (apart, rest) = check_inv (not meets) _ _ h in
      let (s1, first, second) =
        bind_inv _ (source_check host (host.resolve mirror) (host.resolve dripvid_source)) rest in
      let (ai_hq_trusted, same) =
        source_check-IsTrusted (host.resolve mirror) (host.resolve ai_hq_source) s first in
      let (dripvid_trusted, same') =
        source_check-IsTrusted (host.resolve mirror) (host.resolve dripvid_source) s1 second in
      (
        overlaps-Touches _ _ (false_of_not meets apart),
        ai_hq_trusted,
        dripvid_trusted,
        same' ∙ same,
      )

  pub sources_of :
      (m b a d : Option String) (s : Settings) {s' : Settings}
      → s.repository_mirror_root ≡ m
      → s.repository_sandbox_root ≡ b
      → s.ai_hq_repository_source ≡ a
      → s.dripvid_repository_source ≡ d
      → trusted_sources host m b a d s ≡ ok s'
      → (HasNoSources s ⊎ HasTrustedSources s) × (s' ≡ s)
  sources_of none none none none s em eb ea ed h = (
    inl (record { no_mirror = em; no_sandbox = eb; no_ai_hq = ea; no_dripvid = ed }),
    sym (ok_cancel h),
  )
  sources_of (some m) (some b) (some a) (some d) s em eb ea ed h =
      let (apart, ai_hq_trusted, dripvid_trusted, same) = all_sources_inv m b a d s h in
      (
        inr (record {
          mirror = m;
          sandbox = b;
          ai_hq_source = a;
          dripvid_source = d;
          mirror_set = em;
          sandbox_set = eb;
          ai_hq_set = ea;
          dripvid_set = ed;
          mirror_apart = apart;
          ai_hq_trusted = ai_hq_trusted;
          dripvid_trusted = dripvid_trusted;
        }),
        same,
      )
  sources_of m b a d s em eb ea ed h = cc
