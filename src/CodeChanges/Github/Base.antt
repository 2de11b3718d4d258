-- ===== src/CodeChanges/Github/Base.antt =====
-- code_changes/publisher.py: `GitHubCandidatePublisher`, and its reading of the base that a candidate
-- stands on. The files of the workspaces and the hex digest of a mission's id are parameters.
use ai_hq.Prelude.{ℕ, String, not, none, List, str_eq}
use Prim.Native.String.{◌++◌ as text_append}
use ai_hq.Prelude.Result.{Result, ok, ◌>>=◌}
use ai_hq.Prelude.Checks.{check}
use ai_hq.Json.{Fields}
use ai_hq.Delivery.Identity.{is_blank, strip}
use ai_hq.CodeChanges.Files.{WorkspaceFiles}
use ai_hq.CodeChanges.Candidates.{PersistedCandidate}
use ai_hq.CodeChanges.Github.Targets.{RepositoryPublishTarget, RepositoryPublishTargetRegistry}
use ai_hq.CodeChanges.Github.Entries.{Base, base_of}
use ai_hq.CodeChanges.Github.Requests.{
  HttpRequest, HttpAnswer, get, Asking, give, demand, nested_git_sha, request,
}

pub record GithubCandidatePublisher : Type 0 where
  pub http : List HttpRequest → HttpRequest → HttpAnswer
  pub token : String
  pub files : WorkspaceFiles
  pub targets : RepositoryPublishTargetRegistry
  pub mission_digest : ℕ → String

-- `GitHubCandidatePublisher.__init__`
unfoldable pub github_publisher : GithubCandidatePublisher → Result GithubCandidatePublisher
unfolding is_blank strip
github_publisher p =
    check (not (is_blank p.token)) "token is required" (ok (record p { token = strip p.token }))

abbrev pub root_of : RepositoryPublishTarget → String
root_of target = text_append "https://api.github.com/repos/" target.repository_full_name

abbrev pub branch_url : RepositoryPublishTarget → String
branch_url target = text_append (root_of target) (text_append "/git/ref/heads/" target.base_branch)

-- The first half of `publish`: the requests that read the base.
module _ (p : GithubCandidatePublisher) (target : RepositoryPublishTarget)
    (candidate : PersistedCandidate) where
  abbrev pub ask : String → Asking Fields
  ask url = request p.http p.token get (text_append (root_of target) url) none

  unfoldable pub current_base : String → Asking Base
  unfolding request nested_git_sha base_of
  current_base remote_base =
      give (
        demand (str_eq remote_base candidate.base_commit)
          "candidate base is stale; remote main has changed" (ok candidate.base_commit))
      >>= λ base_commit. ask (text_append "/git/commits/" base_commit) >>= λ commit.
          give (nested_git_sha "tree" "GitHub base tree identity is invalid" commit)
          >>= λ base_tree.
              ask (text_append "/git/trees/" (text_append base_tree "?recursive=1")) >>= λ tree.
              give (base_of base_tree tree)

  unfoldable pub read_base : Asking Base
  unfolding request nested_git_sha current_base
  read_base = request p.http p.token get (branch_url target) none >>= λ ref.
      give (nested_git_sha "object" "GitHub remote base identity is invalid" ref) >>= λ remote_base.
      current_base remote_base
