-- ===== src/CodeChanges/Github/Answer.antt =====
-- code_changes/publisher.py: what a publication that returns has done.
use ai_hq.Prelude.{
  String, Bool, true, false, List, [], ◌∷◌, ◌++◌, ◌≡◌, refl, sym, ◌∙◌, ap, subst, str_eq, eq_iff,
  arith,
}
use ai_hq.Prelude.Result.{Result, ok, err, ok_cancel, ◌>>=◌, continue}
use ai_hq.Prelude.Checks.{check_inv, bind_inv}
use ai_hq.Prelude.Checks
use ai_hq.Json.{Fields}
use ai_hq.Delivery.Identity.{starts_with, strip, is_sha256}
use ai_hq.CodeChanges.Candidates.{PersistedCandidate, PublishedCandidate, published_candidate}
use ai_hq.CodeChanges.Github.Targets.{
  RepositoryPublishTarget, get_target, generated_branch_name, branch_name_of,
}
use ai_hq.CodeChanges.Github.Requests.{
  HttpRequest, Asking, give, demand, answer_of, nested_git_sha, request,
}
use ai_hq.CodeChanges.Github.Base.{GithubCandidatePublisher, read_base}
use ai_hq.CodeChanges.Github.Publisher.{
  write_objects, created_as, create_branch, create_ref, publish_to, publish, published_as,
}
use ai_hq.CodeChanges.Github.Publication.{new_branch}

abbrev message : String
message = "GitHub published ref identity is invalid"

-- What GitHub says of a branch that it was asked to create.
abbrev pub branch_commit : GithubCandidatePublisher → List HttpRequest → HttpRequest → Result String
branch_commit p before r =
    Checks.◌>>=◌ (answer_of (p.http before r)) (nested_git_sha "object" message)

-- What a published candidate has to do with the candidate.
pub record Fits (candidate : PersistedCandidate) (branch_name : String) (c : PublishedCandidate)
    : Type 0 where
  pub change : c.change_ref ≡ candidate.change_ref
  pub base : c.base_commit ≡ candidate.base_commit
  pub name : c.branch_name ≡ strip branch_name
  pub repository : c.repository ≡ strip candidate.repository
  pub namespace : starts_with "ai-hq/candidate/" c.branch_name ≡ true

demand_inv :
    {A : Type 0} (b : Bool) (message : String) (r : Result A) {a : A}
    → demand b message r ≡ ok a
    → (b ≡ true) × (r ≡ ok a)
demand_inv true message r h = (refl, h)
demand_inv false message r h = cc

-- What an answer says of a step that it comes from, and where the state is then.
continue_inv :
    {A B : Type 0} (r : Result A) (f : A → Asking B) (s : List HttpRequest) {b : B}
    → (continue r f s).0 ≡ ok b
    → (a : A) × (r ≡ ok a) × ((f a s).0 ≡ ok b) × ((continue r f s).1 ≡ (f a s).1)
continue_inv (ok a) f s h = (a, refl, h, refl)
continue_inv (err e) f s h = cc

module _ (p : GithubCandidatePublisher) (target : RepositoryPublishTarget)
    (candidate : PersistedCandidate) where
  published_as-Fits :
      (name commit tree : String) {c : PublishedCandidate}
      → published_candidate (published_as p target candidate name commit tree) ≡ ok c
      → Fits candidate name c × (c.commit_sha ≡ commit)
  unfolding published_candidate
  published_as-Fits name commit tree h = ground arith

  created_as-Fits :
      (written : String × String) (name : String) (created : Fields) {c : PublishedCandidate}
      → created_as p target candidate written name created ≡ ok c
      → Fits candidate name c
        × (c.commit_sha ≡ written.0)
        × (nested_git_sha "object" message created ≡ ok c.commit_sha)
  unfolding created_as
  created_as-Fits (commit, tree) name created h =
      let (sha, named, rest) = bind_inv (nested_git_sha "object" message created) _ h in
      let (same, built) = demand_inv (str_eq sha commit) _ _ rest in
      let (fits, at) = published_as-Fits name commit tree built in
      (fits, at, named ∙ ap ok ((eq_iff sha commit).0 same ∙ sym at))

  -- The last request of a publication that returned the candidate: it created the branch, on the
  -- commit that GitHub's answer names.
  pub record Answered (c : PublishedCandidate) (after : List HttpRequest) : Type 0 where
    pub before : List HttpRequest
    pub last : after ≡ before ++ new_branch p target candidate c.commit_sha ∷ []
    pub named :
        branch_commit p before (new_branch p target candidate c.commit_sha) ≡ ok c.commit_sha
    pub fits :
        Fits candidate
          (branch_name_of target (p.mission_digest candidate.mission_id) candidate.change_ref)
          c

  abbrev own_branch : String
  own_branch = branch_name_of target (p.mission_digest candidate.mission_id) candidate.change_ref

  create_branch-Answered :
      (written : String × String) (s : List HttpRequest) {c : PublishedCandidate}
      → (create_branch p target candidate written own_branch s).0 ≡ ok c
      → Answered c (create_branch p target candidate written own_branch s).1
  unfolding create_branch request
  create_branch-Answered written s {c} h =
      let r = new_branch p target candidate written.0 in
      let (created, answered, built, ends) =
        continue_inv (answer_of (p.http s r))
          (λ created. give (created_as p target candidate written own_branch created)) (s ++ r ∷ [])
          h in
      let (fits, at, named) = created_as-Fits written own_branch created built in
      record {
        before = s;
        last = ends ∙ ap (λ sha. s ++ new_branch p target candidate sha ∷ []) (sym at);
        named =
            ap (λ sha. branch_commit p s (new_branch p target candidate sha)) at
            ∙ ap (λ a. Checks.◌>>=◌ a (nested_git_sha "object" message)) answered
            ∙ named;
        fits = fits;
      }

  create_ref-Answered :
      (written : String × String) (s : List HttpRequest) {c : PublishedCandidate}
      → (create_ref p target candidate written s).0 ≡ ok c
      → Answered c (create_ref p target candidate written s).1
  unfolding create_ref generated_branch_name
  create_ref-Answered written s {c} h =
      let (name, made, rest, ends) =
        continue_inv
          (generated_branch_name target (p.mission_digest candidate.mission_id)
            candidate.change_ref)
          (create_branch p target candidate written) s h in
      let (_, named) = check_inv (is_sha256 candidate.change_ref) _ _ made in
      let own : own_branch ≡ name = ok_cancel named in
      subst (Answered c) (ap (λ n. (create_branch p target candidate written n s).1) own ∙ sym ends)
        (create_branch-Answered written s
          (subst (λ n. (create_branch p target candidate written n s).0 ≡ ok c) (sym own) rest))

  publish_to-Answered :
      (sent : List HttpRequest) {c : PublishedCandidate}
      → (publish_to p target candidate sent).0 ≡ ok c
      → Answered c (publish_to p target candidate sent).1
  unfolding publish_to
  publish_to-Answered sent {c} h =
      let (r, s) = read_base p target candidate sent in
      let (base, _, wrote, ends) =
        continue_inv r
          (λ base. write_objects p target candidate base >>= create_ref p target candidate) s h in
      let (w, t) = write_objects p target candidate base s in
      let (written, _, made, stops) = continue_inv w (create_ref p target candidate) t wrote in
      subst (Answered c) (sym (ends ∙ stops)) (create_ref-Answered written t made)

module _ (p : GithubCandidatePublisher) (candidate : PersistedCandidate) where
  -- How a publication that returned the candidate ended, in the repository registered for it.
  pub record Returned (c : PublishedCandidate) (after : List HttpRequest) : Type 0 where
    pub target : RepositoryPublishTarget
    pub known : get_target p.targets candidate.repository ≡ ok target
    pub answered : Answered p target candidate c after

  -- If a publication returns a published candidate, then its last request created the branch that
  -- the mission and the change of the candidate determine, in the repository that is registered for
  -- it, and GitHub answered that the branch is on the commit that the published candidate names. The
  -- published candidate has the change and the base commit of the candidate, and its branch lies
  -- under `ai-hq/candidate/`.
  pub publish-Answered :
      (sent : List HttpRequest) {c : PublishedCandidate}
      → (publish p candidate sent).0 ≡ ok c
      → Returned c (publish p candidate sent).1
  unfolding publish
  publish-Answered sent {c} h =
      let (target, known, published, ends) =
        continue_inv _ (λ target. publish_to p target candidate) sent h in
      let (_, target_known) = check_inv _ _ _ known in
      record {
        target = target;
        known = target_known;
        answered =
            subst (Answered p target candidate c) (sym ends)
              (publish_to-Answered p target candidate sent published);
      }
