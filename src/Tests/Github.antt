-- ===== src/Tests/Github.antt =====
-- Publication of a candidate on GitHub, with answers from GitHub.
use ai_hq.Prelude.{true, false, String, some, List, [], ◌∷◌, ◌≡◌, refl, str_eq, if◌then◌else◌}
use Prim.Native.String.{◌++◌ as text_append}
use ai_hq.Prelude.Result.{ok, err, runtime_error}
use ai_hq.Json.{Json, Fields, text, arr, obj, nil, cons, end, field}
use ai_hq.CodeChanges.Candidates.{PersistedCandidate, PublishedCandidate}
use ai_hq.CodeChanges.Files.{WorkspaceFiles}
use ai_hq.CodeChanges.Github.Targets.{
  RepositoryPublishTargetRegistry, build_default_publish_targets,
}
use ai_hq.CodeChanges.Github.Base64.{b64encode}
use ai_hq.CodeChanges.Github.Requests.{HttpRequest, HttpAnswer, response}
use ai_hq.CodeChanges.Github.Base.{GithubCandidatePublisher}
use ai_hq.CodeChanges.Github.Publisher.{publish}
use ai_hq.CodeChanges.Github.Publication.{Publication, publish-Publication}
use ai_hq.CodeChanges.Github.Answer.{Returned, publish-Answered}

abbrev base_sha : String
base_sha = "aaaaaaaaaaaaaaaaaaaaaaaaaaaaaaaaaaaaaaaa"

abbrev new_sha : String
new_sha = "bbbbbbbbbbbbbbbbbbbbbbbbbbbbbbbbbbbbbbbb"

abbrev digest : String
digest = "0123456789abcdef0123456789abcdef0123456789abcdef0123456789abcdef"

abbrev sha_of : String → Fields
sha_of sha = field "sha" (text sha) end

abbrev base_tree : Json
base_tree = arr (
    cons
      (obj (
        field "path" (text "run.sh")
          (field "mode" (text "100755") (field "type" (text "blob") end))))
      nil)

abbrev answer_to : String → String → Fields
answer_to head url =
    let is = λ (s : String).
      str_eq url (text_append "https://api.github.com/repos/Waitenomore-ai/ai-hq/git/" s) in
    if is "ref/heads/main"
    then field "object" (obj (sha_of head)) end
    else if is (text_append "commits/" base_sha)
    then field "tree" (obj (sha_of base_sha)) end
    else if is (text_append "trees/" (text_append base_sha "?recursive=1"))
    then field "tree" base_tree end
    else if is "refs"
    then field "object" (obj (sha_of new_sha)) end
    else sha_of new_sha

abbrev github : String → List HttpRequest → HttpRequest → HttpAnswer
github head sent r = response 200 (some (obj (answer_to head r.url)))

abbrev default_targets : RepositoryPublishTargetRegistry
default_targets = record {
  targets =
      record {
        key = "dripvid";
        repository_full_name = "Waitenomore-ai/dripvid";
        base_branch = "main";
        branch_prefix = "ai-hq/candidate/";
      }
      ∷ record {
        key = "ai-hq";
        repository_full_name = "Waitenomore-ai/ai-hq";
        base_branch = "main";
        branch_prefix = "ai-hq/candidate/";
      }
      ∷ [];
}

default_targets_built : build_default_publish_targets ≡ ok default_targets
unfolding build_default_publish_targets
default_targets_built = refl

abbrev files : WorkspaceFiles
files = record {
  is_symlink = λ c path. false;
  exists = λ c path. true;
  is_file = λ c path. true;
  escapes = λ c path. false;
  content = λ c path. 104 ∷ 105 ∷ [];
}

abbrev publisher_at : String → GithubCandidatePublisher
publisher_at head = record {
  http = github head;
  token = "t";
  files = files;
  targets = default_targets;
  mission_digest = λ id. digest;
}

abbrev candidate : PersistedCandidate
candidate = record {
  mission_id = 1;
  repository = "ai-hq";
  workspace_id = "w";
  base_ref = "main";
  base_commit = base_sha;
  change_ref = text_append "sha256:" digest;
  changed_files = "run.sh" ∷ [];
  content_digest = "d";
}

abbrev published : PublishedCandidate
published = record {
  repository = "ai-hq";
  change_ref = text_append "sha256:" digest;
  branch_name = "ai-hq/candidate/0123456789ab-0123456789ab";
  commit_sha = new_sha;
  tree_sha = new_sha;
  base_commit = base_sha;
}

encoded : b64encode (104 ∷ 105 ∷ []) ≡ "aGk="
unfolding b64encode
encoded = refl

is_published : (publish (publisher_at base_sha) candidate []).0 ≡ ok published
unfolding publish
is_published = refl

-- Another commit on `main`.
is_stale :
    (publish (publisher_at new_sha) candidate []).0
    ≡ err (runtime_error "candidate base is stale; remote main has changed")
unfolding publish
is_stale = refl

publish-Publication_example :
    Publication
      (publisher_at base_sha)
      candidate
      []
      (publish (publisher_at base_sha) candidate []).1
publish-Publication_example = publish-Publication (publisher_at base_sha) candidate []

publish-Answered_example :
    Returned
      (publisher_at base_sha)
      candidate
      published
      (publish (publisher_at base_sha) candidate []).1
publish-Answered_example = publish-Answered (publisher_at base_sha) candidate [] is_published
