-- ===== src/Delivery/Verifier.antt =====
-- delivery/candidate_verifier.py: `CandidateVerifier`.
-- `identity_digest` is the SHA-256 of the canonical JSON text with characters as they are, and
-- `text_digest` that of a text; both are hex digests.
use ai_hq.Prelude.{
  ℕ, String, Bool, true, false, not, ◌&&◌, Option, none, some, List, [], ◌==◌, str_eq,
  if◌then◌else◌,
}
use Prim.Native.String.{◌++◌ as text_append}
use ai_hq.Prelude.Result.{Result, ok, value_error}
use ai_hq.Prelude.Checks.{◌>>=◌, check, found}
use ai_hq.Json.{Json, Fields, text, num, bool, obj, get_field, end, field}
use ai_hq.Delivery.Identity.{is_blank, strip}
use ai_hq.Delivery.Workspace.{CandidateSnapshot, TestEvidence, identity_payload}

pub record Digests : Type 0 where
  pub identity_digest : Json → String
  pub text_digest : String → String

pub record VerifiedCandidate : Type 0 where
  pub mission_id : ℕ
  pub change_ref : String
  pub summary : String
  pub changed_files : List String
  pub evidence : Fields

-- A text of a dict that is not blank.
unfoldable pub required_text : String → Fields → Option String
unfolding get_field is_blank
required_text key fs = elim (get_field key fs) [
  | none ↦ none
  | some v ↦ (elim v [ text s ↦ if is_blank s then none else some s | _ ↦ none ])
]

abbrev pub has_files : List String → Bool
has_files [] = false
has_files _ = true

unfoldable pub change_ref_of : Digests → ℕ → CandidateSnapshot → String
unfolding identity_payload
change_ref_of digests mission_id snapshot =
    text_append "sha256:" (digests.identity_digest (obj (identity_payload mission_id snapshot)))

-- The fields of the review diff, if there is one.
unfoldable pub diff_evidence : Digests → Option String → Fields
diff_evidence digests none = end
diff_evidence digests (some diff) =
    field "candidate_diff" (text diff)
      (field "candidate_diff_digest" (text (text_append "sha256:" (digests.text_digest diff))) end)

unfoldable pub verified_evidence :
    Digests → String → CandidateSnapshot → TestEvidence → Option String → Fields
unfolding diff_evidence
verified_evidence digests change_ref s t diff =
    field "verification" (text "candidate_identity_verified") (
      field "algorithm" (text "sha256") (
        field "change_ref" (text change_ref) (
          field "workspace_id" (text s.workspace_id) (
            field "repository" (text s.repository) (
              field "base_ref" (text s.base_ref) (
                field "base_commit" (text s.base_commit) (
                  field "diff_digest" (text s.diff_digest) (
                    field "content_digest" (text s.content_digest) (
                      field "tests"
                        (obj (
                          field "passed" (bool t.passed) (
                            field "exit_code" (num t.exit_code) (
                              field "summary" (text t.summary)
                                (field "evidence_digest" (text t.evidence_digest) end)))))
                        (diff_evidence digests diff))))))))))

abbrev pub is_reviewable : CandidateSnapshot → Option String → Bool
is_reviewable s none = true
is_reviewable s (some diff) = not (has_files s.changed_files && str_eq diff "")

-- `CandidateVerifier.verify`
unfoldable pub verify :
    Digests
    → ℕ
    → Fields
    → CandidateSnapshot
    → TestEvidence
    → Option String
    → Result VerifiedCandidate
unfolding required_text strip change_ref_of verified_evidence
verify digests mission_id proposal snapshot tests diff =
    found (required_text "summary" proposal) (value_error "proposal summary is required")
    >>= λ summary.
        check (tests.passed && (tests.exit_code == 0))
          "workspace tests must pass before candidate verification"
          (check (is_reviewable snapshot diff)
            "changed candidate requires machine-derived review diff"
            (ok (record {
              mission_id = mission_id;
              change_ref = change_ref_of digests mission_id snapshot;
              summary = strip summary;
              changed_files = snapshot.changed_files;
              evidence =
                  verified_evidence digests (change_ref_of digests mission_id snapshot) snapshot
                    tests diff;
            })))
