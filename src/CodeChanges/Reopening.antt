-- ===== src/CodeChanges/Reopening.antt =====
-- delivery/candidate_verifier.py with code_changes/candidate_store.py: a verified candidate, stored and
-- opened again.
use ai_hq.Prelude.{
  ℕ, String, true, false, ◌&&◌, Option, some, map, ◌≡◌, refl, sym, ap, ◌∙◌, inl, inr, Bool-cases,
  Option-cases, str_eq, eq_iff, if◌then◌else◌, ◌==◌,
}
use Prim.Native.String.{◌++◌ as text_append}
use ai_hq.Prelude.Result.{ok, err, value_error, ok_cancel}
use ai_hq.Json.{Fields, text, obj, get_field}
use ai_hq.Delivery.Identity.{is_git_sha, is_sha256, is_blank, strip}
use ai_hq.Delivery.Workspace.{CandidateSnapshot, TestEvidence, identity_payload}
use ai_hq.Delivery.Verifier.{
  Digests, VerifiedCandidate, verify, change_ref_of, verified_evidence, required_text,
  is_reviewable,
}
use ai_hq.CodeChanges.Candidates.{is_trusted, PersistedCandidate}
use ai_hq.CodeChanges.Store.{
  CandidateStore, load_verified, required_field, sha256_field, git_commit_field, workspace_id_field,
  normalized_files, identity_check, verified_workspace, is_algorithm,
}

-- A text with no blanks around it, which is not empty.
pub record IsPlain (s : String) : Type 0 where
  pub filled : is_blank s ≡ false
  pub stripped : strip s ≡ s

-- What the store would compute as the change of a candidate.
unfoldable pub stored_ref : CandidateStore → ℕ → CandidateSnapshot → String
unfolding identity_payload
stored_ref store id s = text_append "sha256:" (store.canonical_digest (obj (identity_payload id s)))

-- A snapshot of a registered repository whose texts are well formed and whose workspace is as it was.
pub record IsIntact (store : CandidateStore) (digests : Digests) (id : ℕ) (s : CandidateSnapshot)
    : Type 0 where
  pub ref : IsPlain (change_ref_of digests id s)
  pub ref_digest : is_sha256 (change_ref_of digests id s) ≡ true
  pub repository : IsPlain s.repository
  pub trusted : is_trusted s.repository ≡ true
  pub base_ref : IsPlain s.base_ref
  pub is_main : str_eq s.base_ref "main" ≡ true
  pub base_commit : IsPlain s.base_commit
  pub base_sha : is_git_sha s.base_commit ≡ true
  pub workspace : IsPlain s.workspace_id
  pub uuid : store.normal_uuid s.workspace_id ≡ some s.workspace_id
  pub diff : IsPlain s.diff_digest
  pub diff_digest : is_sha256 s.diff_digest ≡ true
  pub content : IsPlain s.content_digest
  pub content_digest : is_sha256 s.content_digest ≡ true
  pub files : normalized_files (map text s.changed_files) ≡ ok s.changed_files
  pub no_link : store.sandbox.is_symlink s.repository s.workspace_id ≡ false
  pub directory : store.sandbox.is_dir s.repository s.workspace_id ≡ true
  pub inside : store.sandbox.escapes s.repository s.workspace_id ≡ false
  pub manifest : store.sandbox.manifest_digest s.repository s.workspace_id ≡ s.content_digest

abbrev pub candidate_of : Digests → ℕ → CandidateSnapshot → PersistedCandidate
candidate_of digests id s = record {
  mission_id = id;
  repository = s.repository;
  workspace_id = s.workspace_id;
  base_ref = s.base_ref;
  base_commit = s.base_commit;
  change_ref = change_ref_of digests id s;
  changed_files = s.changed_files;
  content_digest = s.content_digest;
}

record IsVerified (digests : Digests) (id : ℕ) (s : CandidateSnapshot) (t : TestEvidence)
    (diff : Option String) (v : VerifiedCandidate) : Type 0 where
  change_ref : v.change_ref ≡ change_ref_of digests id s
  changed_files : v.changed_files ≡ s.changed_files
  evidence : v.evidence ≡ verified_evidence digests (change_ref_of digests id s) s t diff

verify-IsVerified :
    (digests : Digests) (id : ℕ) (proposal : Fields) (s : CandidateSnapshot) (t : TestEvidence)
    (diff : Option String) (v : VerifiedCandidate)
    → verify digests id proposal s t diff ≡ ok v
    → IsVerified digests id s t diff v
unfolding verify
verify-IsVerified digests id proposal s t diff v h =
    elim (Option-cases (required_text "summary" proposal)) [
      | inl n ↦ cc (rw n at h)
      | inr (x, e) ↦ elim (Bool-cases (t.passed && (t.exit_code == 0))) [
        | inr u ↦ cc (rw (e, u) at h)
        | inl u ↦ elim (Bool-cases (is_reviewable s diff)) [
          | inr w ↦ cc (rw (e, u, w) at h)
          | inl w ↦
              let k = ok_cancel (rw (e, u, w) at h) in
              record {
                change_ref = ap (λ (y : VerifiedCandidate). y.change_ref) (sym k);
                changed_files = ap (λ (y : VerifiedCandidate). y.changed_files) (sym k);
                evidence = ap (λ (y : VerifiedCandidate). y.evidence) (sym k);
              }
        ]
      ]
    ]

refl_eq : (s : String) → str_eq s s ≡ true
refl_eq s = (eq_iff s s).1 refl

-- The store's checks on the evidence that the verifier wrote.
load_evidence :
    (store : CandidateStore) (digests : Digests) (id : ℕ) (s : CandidateSnapshot) (t : TestEvidence)
    (diff : Option String)
    → IsIntact store digests id s
    → load_verified store id
        (change_ref_of digests id s)
        (map text s.changed_files)
        (verified_evidence digests (change_ref_of digests id s) s t diff)
      ≡ identity_check store s.diff_digest (candidate_of digests id s)
unfolding load_verified verified_evidence get_field sha256_field required_field git_commit_field
    workspace_id_field is_algorithm
load_evidence store digests id s t diff i =
    rw (i.ref.filled, i.ref.stripped, i.ref_digest, refl_eq (change_ref_of digests id s))
      (rw (i.repository.filled, i.repository.stripped, i.trusted, i.base_ref.filled)
        (rw
          (i.base_ref.stripped, i.is_main, i.base_commit.filled, i.base_commit.stripped, i.base_sha)
          (rw (i.workspace.filled, i.workspace.stripped, i.uuid, refl_eq s.workspace_id)
            (rw (i.diff.filled, i.diff.stripped, i.diff_digest)
              (rw (i.content.filled, i.content.stripped, i.content_digest, i.files) refl)))))

identity_check-intact :
    (store : CandidateStore) (digests : Digests) (id : ℕ) (s : CandidateSnapshot)
    → IsIntact store digests id s
    → identity_check store s.diff_digest (candidate_of digests id s) ≡ (
        if str_eq (stored_ref store id s) (change_ref_of digests id s)
        then ok (candidate_of digests id s)
        else err (value_error "candidate change_ref does not match machine identity"))
unfolding identity_check verified_workspace stored_ref identity_payload
identity_check-intact store digests id s i =
    elim (Bool-cases (str_eq (stored_ref store id s) (change_ref_of digests id s))) [
      | inr t ↦ rw t refl
      | inl t ↦
          rw t (rw (i.no_link, i.directory, i.inside, i.manifest, refl_eq s.content_digest) refl)
    ]

-- What the verifier has verified of an intact workspace, the store opens again with the same
-- identity, exactly if the two digests of the identity are the same; else it refuses the candidate.
pub load_verified-verify :
    (store : CandidateStore) (digests : Digests) (id : ℕ) (proposal : Fields)
    (s : CandidateSnapshot) (t : TestEvidence) (diff : Option String) (v : VerifiedCandidate)
    → verify digests id proposal s t diff ≡ ok v
    → IsIntact store digests id s
    → load_verified store id v.change_ref (map text v.changed_files) v.evidence ≡ (
        if str_eq (stored_ref store id s) (change_ref_of digests id s)
        then ok (candidate_of digests id s)
        else err (value_error "candidate change_ref does not match machine identity"))
load_verified-verify store digests id proposal s t diff v h i =
    let x = verify-IsVerified digests id proposal s t diff v h in
    rw (x.change_ref, x.changed_files, x.evidence)
      (load_evidence store digests id s t diff i ∙ identity_check-intact store digests id s i)
