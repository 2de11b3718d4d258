-- ===== src/Tests/Reopening.antt =====
-- A candidate that was verified and is opened again.
use ai_hq.Prelude.{String, true, false, some, [], ◌∷◌, map, ◌≡◌, refl, if◌then◌else◌, str_eq}
use ai_hq.Prelude.Result.{ok, err, value_error}
use ai_hq.Json.{Fields, text, end, field}
use ai_hq.Delivery.Identity.{is_git_sha, is_sha256, is_blank, strip}
use ai_hq.Delivery.Workspace.{CandidateSnapshot, TestEvidence}
use ai_hq.Delivery.Verifier.{Digests, VerifiedCandidate, verify, change_ref_of, verified_evidence}
use ai_hq.CodeChanges.Store.{CandidateStore, load_verified, normalized_files}
use ai_hq.CodeChanges.Reopening.{IsPlain, IsIntact, stored_ref, candidate_of, load_verified-verify}
use ai_hq.Tests.Delivery.{sha}

abbrev hex : String
hex = "0123456789abcdef0123456789abcdef0123456789abcdef0123456789abcdef"

abbrev hex_ref : String
hex_ref = "sha256:0123456789abcdef0123456789abcdef0123456789abcdef0123456789abcdef"

abbrev digests : Digests
digests = record { identity_digest = λ j. hex; text_digest = λ s. hex }

abbrev store : CandidateStore
store = record {
  canonical_digest = λ j. hex;
  normal_uuid = λ s. some s;
  sandbox = record {
    is_symlink = λ r w. false;
    is_dir = λ r w. true;
    escapes = λ r w. false;
    manifest_digest = λ r w. hex_ref;
  };
}

abbrev snapshot : CandidateSnapshot
snapshot = record {
  workspace_id = "w";
  repository = "ai-hq";
  base_ref = "main";
  changed_files = "a/b.py" ∷ "c.py" ∷ [];
  diff_digest = hex_ref;
  content_digest = hex_ref;
  base_commit = sha;
}

abbrev tests : TestEvidence
tests = record { passed = true; exit_code = 0; summary = "ok"; evidence_digest = hex_ref }

abbrev proposal : Fields
proposal = field "summary" (text " Fix ") end

abbrev verified : VerifiedCandidate
verified = record {
  mission_id = 1;
  change_ref = hex_ref;
  summary = "Fix";
  changed_files = snapshot.changed_files;
  evidence = verified_evidence digests hex_ref snapshot tests (some "diff");
}

verifies : verify digests 1 proposal snapshot tests (some "diff") ≡ ok verified
unfolding verify
verifies = refl

IsPlain-hex : IsPlain hex_ref
unfolding is_blank strip
IsPlain-hex = record { filled = refl; stripped = refl }

intact : IsIntact store digests 1 snapshot
unfolding is_blank strip is_sha256 is_git_sha normalized_files change_ref_of
intact = record {
  ref = IsPlain-hex;
  ref_digest = refl;
  repository = record { filled = refl; stripped = refl };
  trusted = refl;
  base_ref = record { filled = refl; stripped = refl };
  is_main = refl;
  base_commit = record { filled = refl; stripped = refl };
  base_sha = refl;
  workspace = record { filled = refl; stripped = refl };
  uuid = refl;
  diff = IsPlain-hex;
  diff_digest = refl;
  content = IsPlain-hex;
  content_digest = refl;
  files = refl;
  no_link = refl;
  directory = refl;
  inside = refl;
  manifest = refl;
}

load_verified-verify_example :
    load_verified store 1 hex_ref (map text snapshot.changed_files) verified.evidence ≡ (
      if str_eq (stored_ref store 1 snapshot) (change_ref_of digests 1 snapshot)
      then ok (candidate_of digests 1 snapshot)
      else err (value_error "candidate change_ref does not match machine identity"))
load_verified-verify_example =
    load_verified-verify store digests 1 proposal snapshot tests (some "diff") verified verifies
      intact
