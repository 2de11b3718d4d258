-- ===== src/CodeChanges/Store.antt =====
-- code_changes/candidate_store.py: `CandidateStore`, which verifies a persisted candidate again.
-- `normal_uuid` is `str(UUID(text))` where the text is a UUID, from Python's uuid. The sandbox's
-- files are a parameter: what they say of a workspace, and the digest of its manifest.
use ai_hq.Prelude.{
  ℕ, String, Bool, true, false, not, ◌&&◌, ◌||◌, Option, none, some, List, [], ◌∷◌, ◌==◌, ltb,
  str_eq, if◌then◌else◌, any,
}
use Prim.Native.Char.{Char, code}
use Prim.Native.String.{[] as empty, ◌∷◌ as with_char, ◌++◌ as text_append}
use ai_hq.Prelude.Result.{Result, ok, err, value_error}
use ai_hq.Prelude.Checks.{◌>>=◌, check, found}
use ai_hq.Json.{Json, Fields, null, text, obj, get_field}
use ai_hq.Delivery.Identity.{is_git_sha, is_sha256, is_blank, strip}
use ai_hq.Delivery.Workspace.{identity_fields}
use ai_hq.CodeChanges.Candidates.{is_trusted, PersistedCandidate}

pub record Sandbox : Type 0 where
  pub is_symlink : String → String → Bool
  pub is_dir : String → String → Bool
  pub escapes : String → String → Bool
  pub manifest_digest : String → String → String

pub record CandidateStore : Type 0 where
  pub canonical_digest : Json → String
  pub normal_uuid : String → Option String
  pub sandbox : Sandbox

-- `_required(evidence.get(key), key)`
unfoldable pub required_field : String → Fields → Result String
unfolding get_field is_blank strip
required_field key evidence = elim (get_field key evidence) [
  | none ↦ err (value_error (text_append key " is required"))
  | some v ↦ (elim v [
    | text s ↦ check (not (is_blank s)) (text_append key " is required") (ok (strip s))
    | _ ↦ err (value_error (text_append key " is required"))
  ])
]

-- `_sha256(evidence.get(key), key)`
unfoldable pub sha256_field : String → Fields → Result String
unfolding required_field is_sha256
sha256_field key evidence = required_field key evidence >>= λ s.
    check (is_sha256 s) (text_append key " must be a sha256 digest") (ok s)

unfoldable pub git_commit_field : String → Fields → Result String
unfolding required_field is_git_sha
git_commit_field key evidence = required_field key evidence >>= λ s.
    check (is_git_sha s) "base_commit must be a 40-character lowercase Git commit" (ok s)

-- `_workspace_id`
unfoldable pub workspace_id_field : CandidateStore → Fields → Result String
unfolding required_field
workspace_id_field store evidence = required_field "workspace_id" evidence >>= λ s.
    found (store.normal_uuid s) (value_error "workspace_id must be a UUID") >>= λ n.
    check (str_eq n s) "workspace_id must be a normalized UUID" (ok s)

-- `value.split("/")`
abbrev first_with : Char → List String → List String
first_with c [] = with_char c empty ∷ []
first_with c (s ∷ ss) = with_char c s ∷ ss

unfoldable pub segments : String → List String
segments empty = empty ∷ []
segments (with_char c s) =
    let rest = segments s in if code c == 47 then empty ∷ rest else first_with c rest

unfoldable pub has_backslash : String → Bool
has_backslash empty = false
has_backslash (with_char c s) = let rest = has_backslash s in code c == 92 || rest

abbrev pub is_dots : String → Bool
is_dots part = str_eq part "" || str_eq part "." || str_eq part ".."

abbrev pub starts_git : List String → Bool
starts_git [] = false
starts_git (part ∷ parts) = str_eq part ".git"

-- `_safe_changed_path`; a path that passes is the path that it was.
unfoldable pub safe_changed_path : Json → Result String
unfolding segments has_backslash
safe_changed_path (text path) = check (not (str_eq path "")) "changed file path is required" (
    check (not (has_backslash path)) "changed file path must use normalized separators" (
      check (not (any is_dots (segments path))) "changed file path must be normalized and relative"
        (check (not (starts_git (segments path))) "changed file path cannot target .git"
          (ok path))))
safe_changed_path _ = err (value_error "changed file path is required")

unfoldable pub safe_changed_paths : List Json → Result (List String)
unfolding safe_changed_path
safe_changed_paths [] = ok []
safe_changed_paths (v ∷ vs) =
    safe_changed_path v >>= λ p. safe_changed_paths vs >>= λ ps. ok (p ∷ ps)

-- `<` on texts, by the numbers of their characters.
unfoldable pub text_before : String → String → Bool
text_before empty empty = false
text_before empty (with_char d t) = true
text_before (with_char c s) empty = false
text_before (with_char c s) (with_char d t) =
    let rest = text_before s t in ltb (code c) (code d) || (code c == code d && rest)

unfoldable pub are_unique : List String → Bool
are_unique [] = true
are_unique (p ∷ ps) = let rest = are_unique ps in not (any (str_eq p) ps) && rest

unfoldable pub are_sorted : List String → Bool
unfolding text_before
are_sorted [] = true
are_sorted (p ∷ ps) =
    let rest = are_sorted ps in (elim ps [ [] ↦ true | q ∷ qs ↦ not (text_before q p) ]) && rest

-- `_changed_files`
unfoldable pub normalized_files : List Json → Result (List String)
unfolding safe_changed_paths are_unique are_sorted
normalized_files values = safe_changed_paths values >>= λ paths.
    check (are_unique paths) "changed file paths must be unique"
      (check (are_sorted paths) "changed file paths must be sorted" (ok paths))

-- `evidence.get("algorithm") in {None, "sha256"}`
unfoldable pub is_algorithm : Option Json → Bool
is_algorithm none = true
is_algorithm (some null) = true
is_algorithm (some (text s)) = str_eq s "sha256"
is_algorithm (some v) = false

abbrev is_text : String → Option Json → Bool
is_text s none = false
is_text s (some v) = elim v [ text t ↦ str_eq t s | _ ↦ false ]

-- The last part of the method, on the sandbox.
unfoldable pub verified_workspace : CandidateStore → PersistedCandidate → Result PersistedCandidate
verified_workspace store c =
    check (not (store.sandbox.is_symlink c.repository c.workspace_id))
      "candidate workspace cannot be a symlink"
      (check (store.sandbox.is_dir c.repository c.workspace_id) "candidate workspace is missing" (
        check (not (store.sandbox.escapes c.repository c.workspace_id))
          "candidate workspace escapes sandbox root"
          (check
            (str_eq (store.sandbox.manifest_digest c.repository c.workspace_id) c.content_digest)
            "candidate workspace content digest is stale" (ok c))))

unfoldable pub identity_check :
    CandidateStore → String → PersistedCandidate → Result PersistedCandidate
unfolding identity_fields verified_workspace
identity_check store diff_digest c =
    check
      (str_eq
        (text_append "sha256:" (
          store.canonical_digest (
            obj (
              identity_fields c.mission_id c.repository c.base_ref c.base_commit c.workspace_id
                c.changed_files diff_digest c.content_digest))))
        c.change_ref)
      "candidate change_ref does not match machine identity" (verified_workspace store c)

-- `CandidateStore.load_verified`
unfoldable pub load_verified :
    CandidateStore → ℕ → String → List Json → Fields → Result PersistedCandidate
unfolding is_blank strip is_sha256 get_field sha256_field required_field git_commit_field
    workspace_id_field normalized_files identity_check is_algorithm
load_verified store mission_id change_ref changed_files evidence =
    check (not (is_blank change_ref)) "change_ref is required" (
      check (is_sha256 (strip change_ref)) "change_ref must be a sha256 digest" (
        check (is_text "candidate_identity_verified" (get_field "verification" evidence))
          "candidate verification evidence is required"
          (check (is_algorithm (get_field "algorithm" evidence))
            "candidate verification algorithm is invalid"
            (sha256_field "change_ref" evidence >>= λ evidence_ref.
              check (str_eq evidence_ref (strip change_ref)) "candidate change_ref mismatch" (
                required_field "repository" evidence >>= λ repository.
                check (is_trusted repository) "unknown candidate repository" (
                  required_field "base_ref" evidence >>= λ base_ref.
                  check (str_eq base_ref "main") "candidate base reference must be main" (
                    git_commit_field "base_commit" evidence >>= λ base_commit.
                    workspace_id_field store evidence >>= λ workspace_id.
                    sha256_field "diff_digest" evidence >>= λ diff_digest.
                    sha256_field "content_digest" evidence >>= λ content_digest.
                    normalized_files changed_files >>= λ files.
                    identity_check store diff_digest (record {
                      mission_id = mission_id;
                      repository = repository;
                      workspace_id = workspace_id;
                      base_ref = base_ref;
                      base_commit = base_commit;
                      change_ref = strip change_ref;
                      changed_files = files;
                      content_digest = content_digest;
                    }))))))))
