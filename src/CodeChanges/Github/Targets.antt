-- ===== src/CodeChanges/Github/Targets.antt =====
-- code_changes/publisher.py: where the candidates of a repository are published.
use ai_hq.Prelude.{
  String, Bool, false, not, ◌&&◌, ◌||◌, ◌==◌, List, [], ◌∷◌, str_eq, any, ltb, if◌then◌else◌,
}
use Prim.Native.Char.{Char, code}
use Prim.Native.String.{[] as empty, ◌∷◌ as with_char, ◌++◌ as text_append}
use ai_hq.Prelude.Result.{Result, ok, err, value_error, key_error}
use ai_hq.Prelude.Rows.{find}
use ai_hq.Prelude.Checks.{◌>>=◌, check, found}
use ai_hq.Operations.Texts.{all_chars, is_release_char}
use ai_hq.Recovery.Bounded.{cut, text_length}
use ai_hq.Delivery.Identity.{is_blank, is_sha256, starts_with, strip, cut_left}
use ai_hq.CodeChanges.Candidates.{is_trusted}
use ai_hq.CodeChanges.Store.{segments}

pub record RepositoryPublishTarget : Type 0 where
  pub key : String
  pub repository_full_name : String
  pub base_branch : String
  pub branch_prefix : String

-- A part of a name that `[A-Za-z0-9_.-]+` matches.
unfoldable pub is_name : String → Bool
unfolding all_chars is_release_char
is_name s = not (str_eq s "") && all_chars is_release_char s

abbrev two_names : List String → Bool
two_names (owner ∷ name ∷ []) = is_name owner && is_name name
two_names _ = false

-- `_REPOSITORY_RE.fullmatch(text)`
unfoldable pub is_full_name : String → Bool
unfolding segments is_name
is_full_name s = two_names (segments s)

-- `[A-Za-z0-9._/-]`
abbrev is_branch_char : Char → Bool
is_branch_char c = is_release_char c || code c == 47

unfoldable pub ends_with_slash : String → Bool
ends_with_slash empty = false
ends_with_slash (with_char c s) =
    let rest = ends_with_slash s in if str_eq s "" then code c == 47 else rest

-- `_BRANCH_PREFIX_RE.fullmatch(text)`
unfoldable pub is_branch_prefix : String → Bool
unfolding all_chars is_release_char ends_with_slash text_length
is_branch_prefix s = ltb 1 (text_length s) && all_chars is_branch_char s && ends_with_slash s

-- `".." in text`
unfoldable pub has_dots : String → Bool
unfolding starts_with
has_dots empty = false
has_dots (with_char c s) = let rest = has_dots s in starts_with ".." (with_char c s) || rest

-- `RepositoryPublishTarget.__post_init__`
unfoldable pub publish_target : RepositoryPublishTarget → Result RepositoryPublishTarget
unfolding is_blank strip is_full_name is_branch_prefix has_dots starts_with
publish_target t =
    let key = strip t.key in
    let repository = strip t.repository_full_name in
    let base_branch = strip t.base_branch in
    let prefix = strip t.branch_prefix in
    check (not (is_blank t.key)) "key is required" (
      check (not (is_blank t.repository_full_name)) "repository_full_name is required" (
        check (not (is_blank t.base_branch)) "base_branch is required" (
          check (not (is_blank t.branch_prefix)) "branch_prefix is required" (
            check (is_trusted key) "unsupported publish target key" (
              check (is_full_name repository) "repository_full_name must be owner/name" (
                check (str_eq base_branch "main") "publish target base branch must be main" (
                  check (is_branch_prefix prefix) "branch_prefix is invalid" (
                    check (not (has_dots prefix || starts_with "/" prefix))
                      "branch_prefix is invalid"
                      (ok (record {
                        key = key;
                        repository_full_name = repository;
                        base_branch = base_branch;
                        branch_prefix = prefix;
                      }))))))))))

-- The dict `_targets`; its keys are the keys of its values.
pub record RepositoryPublishTargetRegistry : Type 0 where
  pub targets : List RepositoryPublishTarget

abbrev has_target_key : String → RepositoryPublishTarget → Bool
has_target_key key target = str_eq target.key key

-- The loop of `RepositoryPublishTargetRegistry.__init__`, after some targets.
unfoldable pub add_publish_targets :
    List RepositoryPublishTarget
    → List RepositoryPublishTarget
    → Result RepositoryPublishTargetRegistry
add_publish_targets done [] = ok (record { targets = done })
add_publish_targets done (t ∷ ts) =
    let rest = add_publish_targets (t ∷ done) ts in
    if any (has_target_key t.key) done then err (value_error "duplicate publish target") else rest

unfoldable pub publish_target_registry :
    List RepositoryPublishTarget → Result RepositoryPublishTargetRegistry
unfolding add_publish_targets
publish_target_registry [] = err (value_error "publish targets must be a non-empty tuple")
publish_target_registry (t ∷ ts) = add_publish_targets [] (t ∷ ts)

-- `RepositoryPublishTargetRegistry.get`
unfoldable pub get_target :
    RepositoryPublishTargetRegistry → String → Result RepositoryPublishTarget
unfolding find
get_target registry key =
    found (find (has_target_key key) registry.targets) (key_error "unknown publish target")

unfoldable pub build_default_publish_targets : Result RepositoryPublishTargetRegistry
unfolding publish_target publish_target_registry
build_default_publish_targets =
    publish_target (record {
      key = "ai-hq";
      repository_full_name = "Waitenomore-ai/ai-hq";
      base_branch = "main";
      branch_prefix = "ai-hq/candidate/";
    })
    >>= λ ai_hq_target.
        publish_target (record {
          key = "dripvid";
          repository_full_name = "Waitenomore-ai/dripvid";
          base_branch = "main";
          branch_prefix = "ai-hq/candidate/";
        })
        >>= λ dripvid_target. publish_target_registry (ai_hq_target ∷ dripvid_target ∷ [])

-- The name of the branch, given the hex digest of the mission's id, which is a filled text.
unfoldable pub branch_name_of : RepositoryPublishTarget → String → String → String
unfolding cut cut_left
branch_name_of target mission_digest change_ref =
    text_append target.branch_prefix
      (text_append (cut 12 mission_digest) (text_append "-" (cut 12 (cut_left 7 change_ref))))

-- `generated_branch_name`
unfoldable pub generated_branch_name : RepositoryPublishTarget → String → String → Result String
unfolding is_sha256 branch_name_of
generated_branch_name target mission_digest change_ref =
    check (is_sha256 change_ref) "change_ref must be a sha256 digest"
      (ok (branch_name_of target mission_digest change_ref))
