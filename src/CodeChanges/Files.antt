-- ===== src/CodeChanges/Files.antt =====
-- code_changes/candidate_store.py: `CandidateStore.read_changed_file`. What the file system says of a
-- path in the workspace of a candidate is a parameter.
use ai_hq.Prelude.{
  ℕ, String, Bool, not, Option, none, some, List, str_eq, eq_iff, any, ◌≡◌, sym, ◌∙◌, subst, Memᴰ,
  if◌then◌else◌,
}
use ai_hq.Prelude.Result.{Result, ok, ok_cancel}
use ai_hq.Prelude.Checks.{◌>>=◌, check, check_inv, bind_inv}
use ai_hq.Prelude.Rows.Members.{any-mem}
use ai_hq.Json.{text}
use ai_hq.CodeChanges.Candidates.{PersistedCandidate}
use ai_hq.CodeChanges.Store.{safe_changed_path, segments, has_backslash, is_dots, starts_git}

pub record WorkspaceFiles : Type 0 where
  pub is_symlink : PersistedCandidate → String → Bool
  pub exists : PersistedCandidate → String → Bool
  pub is_file : PersistedCandidate → String → Bool
  pub escapes : PersistedCandidate → String → Bool
  pub content : PersistedCandidate → String → List ℕ

-- The reading of a path that is a changed file.
abbrev pub read_target : WorkspaceFiles → PersistedCandidate → String → Result (Option (List ℕ))
read_target files candidate path =
    check (not (files.is_symlink candidate path))
      "changed file must be a regular file, not a symlink"
      (if files.exists candidate path
        then check (files.is_file candidate path) "changed file must be a regular file" (
            check (not (files.escapes candidate path)) "changed file escapes candidate workspace"
              (ok (some (files.content candidate path))))
        else ok none)

-- `CandidateStore.read_changed_file`
unfoldable pub read_changed_file :
    WorkspaceFiles → PersistedCandidate → String → Result (Option (List ℕ))
unfolding safe_changed_path
read_changed_file files candidate path = safe_changed_path (text path) >>= λ relative.
    check (any (str_eq relative) candidate.changed_files) "path is not a verified changed file"
      (read_target files candidate relative)

safe_changed_path-same :
    (path : String) {relative : String}
    → safe_changed_path (text path) ≡ ok relative
    → relative ≡ path
unfolding safe_changed_path
safe_changed_path-same path h =
    let (_, h1) = check_inv (not (str_eq path "")) _ _ h in
    let (_, h2) = check_inv (not (has_backslash path)) _ _ h1 in
    let (_, h3) = check_inv (not (any is_dots (segments path))) _ _ h2 in
    let (_, h4) = check_inv (not (starts_git (segments path))) _ _ h3 in sym (ok_cancel h4)

-- Only changed files of the candidate are read.
pub read_changed_file-mem :
    (files : WorkspaceFiles) (candidate : PersistedCandidate) (path : String)
    {content : Option (List ℕ)}
    → read_changed_file files candidate path ≡ ok content
    → Memᴰ path candidate.changed_files
unfolding read_changed_file
read_changed_file-mem files candidate path h =
    let (relative, safe, rest) =
      bind_inv (safe_changed_path (text path))
        (λ relative.
          check (any (str_eq relative) candidate.changed_files)
            "path is not a verified changed file" (read_target files candidate relative))
        h in
    let (changed, _) = check_inv (any (str_eq relative) candidate.changed_files) _ _ rest in
    let (x, mem, same) = any-mem (str_eq relative) candidate.changed_files changed in
    subst (λ p. Memᴰ p candidate.changed_files)
      (sym ((eq_iff relative x).0 same) ∙ safe_changed_path-same path safe) mem
