-- ===== src/CodeChanges/Github/Publication.antt =====
-- code_changes/publisher.py: what a publication does on GitHub, as a whole.
use ai_hq.Prelude.{
  String, Bool, true, false, none, List, [], ◌∷◌, ◌++◌, ◌≡◌, refl, ap, ◌⊎◌, inl, inr, Bool-cases,
  str_eq, eq_iff,
}
use ai_hq.Prelude.Result.{Result, ok, err, ◌>>=◌, continue}
use ai_hq.Prelude.Checks.{check}
use ai_hq.Prelude.Checks
use ai_hq.Json.{Fields}
use ai_hq.CodeChanges.Candidates.{PersistedCandidate}
use ai_hq.CodeChanges.Github.Targets.{
  RepositoryPublishTarget, get_target, generated_branch_name, branch_name_of,
}
use ai_hq.CodeChanges.Github.Entries.{Base}
use ai_hq.CodeChanges.Github.Requests.{
  HttpRequest, get, give, answer_of, nested_git_sha, request_to, request,
}
use ai_hq.CodeChanges.Github.Base.{GithubCandidatePublisher, branch_url, current_base, read_base}
use ai_hq.CodeChanges.Github.Publisher.{
  send, ref_body, write_objects, created_as, create_branch, create_ref, publish_to, publish,
}
use ai_hq.CodeChanges.Github.Asks.{Added}
use ai_hq.Delivery.Identity.{is_sha256}
use ai_hq.CodeChanges.Github.Writes.{IsRead, IsObject, post_to, read_base-Asks, write_objects-Asks}

module _ (p : GithubCandidatePublisher) (target : RepositoryPublishTarget)
    (candidate : PersistedCandidate) where
  -- What the head of the base branch is, by GitHub's answer to the first request.
  abbrev pub remote_base : List HttpRequest → Result String
  remote_base sent =
      Checks.◌>>=◌
        (answer_of (p.http sent (request_to p.http p.token get (branch_url target) none)))
        (nested_git_sha "object" "GitHub remote base identity is invalid")

  -- The creation of the branch of the candidate, whose name depends on mission and change only.
  abbrev pub new_branch : String → HttpRequest
  new_branch sha = post_to p target candidate "/git/refs" (
      ref_body p target candidate
        (branch_name_of target (p.mission_digest candidate.mission_id) candidate.change_ref) sha)

  -- Reads, while the base branch stands on the base commit of the candidate; then objects; then, at
  -- most once, the new branch.
  pub record Written (sent after : List HttpRequest) : Type 0 where
    pub current : remote_base sent ≡ ok candidate.base_commit
    pub read_to : List HttpRequest
    pub written_to : List HttpRequest
    pub reads : Added (IsRead p target candidate) sent read_to
    pub objects : Added (IsObject p target candidate) read_to written_to
    pub branch :
        (after ≡ written_to) ⊎ ((sha : String) × (after ≡ written_to ++ new_branch sha ∷ []))

  current_base-current :
      (remote : String) (s : List HttpRequest) (b : Base)
      → (current_base p target candidate remote s).0 ≡ ok b
      → remote ≡ candidate.base_commit
  unfolding current_base
  current_base-current remote s b h = elim (Bool-cases (str_eq remote candidate.base_commit)) [
    | inl t ↦ (eq_iff remote candidate.base_commit).0 t
    | inr t ↦ cc (rw t at h)
  ]

  named_current :
      (n : Result String) (s : List HttpRequest) (b : Base)
      → (continue n (current_base p target candidate) s).0 ≡ ok b
      → n ≡ ok candidate.base_commit
  named_current (ok remote) s b h = ap ok (current_base-current remote s b h)
  named_current (err e) s b h = cc

  answered_current :
      (a : Result Fields) (s : List HttpRequest) (b : Base)
      → (continue a
          (λ ref.
            give (nested_git_sha "object" "GitHub remote base identity is invalid" ref)
            >>= current_base p target candidate)
          s).0
        ≡ ok b
      → Checks.◌>>=◌ a (nested_git_sha "object" "GitHub remote base identity is invalid")
        ≡ ok candidate.base_commit
  answered_current (ok ref) s b h = named_current _ s b h
  answered_current (err e) s b h = cc

  read_base-current :
      (sent : List HttpRequest) (b : Base)
      → (read_base p target candidate sent).0 ≡ ok b
      → remote_base sent ≡ ok candidate.base_commit
  unfolding read_base request
  read_base-current sent b h =
      let r = request_to p.http p.token get (branch_url target) none in
      answered_current (answer_of (p.http sent r)) (sent ++ r ∷ []) b h

  continue-give :
      {A B : Type 0} (r : Result A) (g : A → Result B) (s : List HttpRequest)
      → (continue r (λ a. give (g a)) s).1 ≡ s
  continue-give (ok a) g s = refl
  continue-give (err e) g s = refl

  create_branch-sent :
      (written : String × String) (branch_name : String) (s : List HttpRequest)
      → (create_branch p target candidate written branch_name s).1
        ≡ s
          ++ post_to p target candidate "/git/refs"
              (ref_body p target candidate branch_name written.0)
            ∷ []
  unfolding create_branch
  create_branch-sent written branch_name s =
      let (answer, after) =
        send p target candidate "/git/refs" (ref_body p target candidate branch_name written.0) s in
      continue-give answer (created_as p target candidate written branch_name) after

  create_ref-branch :
      (written : String × String) (s : List HttpRequest)
      → ((create_ref p target candidate written s).1 ≡ s)
        ⊎ ((sha : String) × ((create_ref p target candidate written s).1
              ≡ s ++ new_branch sha ∷ []))
  unfolding create_ref generated_branch_name
  create_ref-branch written s = elim (Bool-cases (is_sha256 candidate.change_ref)) [
    | inl t ↦ rw t (inr (written.0, create_branch-sent written _ s))
    | inr t ↦ rw t (inl refl)
  ]

  after_objects :
      (r : Result (String × String)) (s : List HttpRequest)
      → ((continue r (create_ref p target candidate) s).1 ≡ s)
        ⊎ ((sha : String) × ((continue r (create_ref p target candidate) s).1
              ≡ s ++ new_branch sha ∷ []))
  after_objects (ok written) s = create_ref-branch written s
  after_objects (err e) s = inl refl

  after_base :
      (r : Result Base) (sent s : List HttpRequest)
      → Added (IsRead p target candidate) sent s
      → ((b : Base) → r ≡ ok b → remote_base sent ≡ ok candidate.base_commit)
      → let after =
          (continue r
            (λ base. write_objects p target candidate base >>= create_ref p target candidate)
            s).1 in
        Added (IsRead p target candidate) sent after ⊎ Written sent after
  after_base (err e) sent s reads current = inl reads
  after_base (ok b) sent s reads current =
      let (r, written) = write_objects p target candidate b s in
      inr (record {
        current = current b refl;
        read_to = s;
        written_to = written;
        reads = reads;
        objects = (write_objects-Asks p target candidate b).at s;
        branch = after_objects r written;
      })

  publish_to_lem :
      (sent : List HttpRequest)
      → let after = (publish_to p target candidate sent).1 in
        Added (IsRead p target candidate) sent after ⊎ Written sent after
  unfolding publish_to
  publish_to_lem sent =
      let (r, s) = read_base p target candidate sent in
      after_base r sent s ((read_base-Asks p target candidate).at sent)
        (λ b h. read_base-current sent b h)

module _ (p : GithubCandidatePublisher) (candidate : PersistedCandidate) where
  -- What a publication has asked: nothing, reads only, or reads and then writes, in the repository
  -- that is registered for the candidate.
  pub data Publication (sent after : List HttpRequest) : Type 0 where
    nothing : after ≡ sent → Publication sent after
    only_read :
        (target : RepositoryPublishTarget)
        → get_target p.targets candidate.repository ≡ ok target
        → Added (IsRead p target candidate) sent after
        → Publication sent after
    wrote :
        (target : RepositoryPublishTarget)
        → get_target p.targets candidate.repository ≡ ok target
        → Written p target candidate sent after
        → Publication sent after

  with_target :
      (r : Result RepositoryPublishTarget) (sent : List HttpRequest)
      → ((t : RepositoryPublishTarget)
          → r ≡ ok t
          → get_target p.targets candidate.repository ≡ ok t)
      → Publication sent (continue r (λ target. publish_to p target candidate) sent).1
  with_target (err e) sent known = nothing refl
  with_target (ok target) sent known = elim (publish_to_lem p target candidate sent) [
    | inl reads ↦ only_read target (known target refl) reads
    | inr written ↦ wrote target (known target refl) written
  ]

  known_target :
      (b : Bool) {t : RepositoryPublishTarget}
      → check b "candidate base commit must be an exact Git commit"
          (get_target p.targets candidate.repository)
        ≡ ok t
      → get_target p.targets candidate.repository ≡ ok t
  known_target true h = h
  known_target false h = cc

  -- Whatever GitHub answers, a publication asks for nothing outside the repository that is
  -- registered for the candidate. It writes only if the base branch stands on the base commit of the
  -- candidate, by the answer to its first request. What it writes are blobs with the contents of
  -- changed files of the candidate, trees, and commits whose only parent is that base commit; and
  -- last, at most once, it creates the branch whose name its mission and its change determine. It
  -- asks for no other change of a branch.
  pub publish-Publication :
      (sent : List HttpRequest) → Publication sent (publish p candidate sent).1
  unfolding publish
  publish-Publication sent = with_target _ sent (λ t h. known_target _ h)
