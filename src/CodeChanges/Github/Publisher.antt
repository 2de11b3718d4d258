-- ===== src/CodeChanges/Github/Publisher.antt =====
-- code_changes/publisher.py: `GitHubCandidatePublisher.publish`.
use ai_hq.Prelude.{ℕ, String, Bool, not, ◌&&◌, Option, none, some, List, [], ◌∷◌, str_eq, is_none}
use Prim.Native.String.{◌++◌ as text_append}
use ai_hq.Prelude.Result.{Result, ok, err, pure, ◌>>=◌}
use ai_hq.Prelude.Rows.{find, order_by}
use ai_hq.Prelude.Checks.{check}
use ai_hq.Prelude.Checks
use ai_hq.Json.{Json, Items, Fields, null, text, arr, obj, nil, cons, end, field, get_field}
use ai_hq.Recovery.Bounded.{cut}
use ai_hq.Delivery.Identity.{is_git_sha}
use ai_hq.CodeChanges.Candidates.{PersistedCandidate, PublishedCandidate, published_candidate}
use ai_hq.CodeChanges.Store.{text_before}
use ai_hq.CodeChanges.Files.{read_changed_file}
use ai_hq.CodeChanges.Github.Targets.{RepositoryPublishTarget, get_target, generated_branch_name}
use ai_hq.CodeChanges.Github.Base64.{b64encode}
use ai_hq.CodeChanges.Github.Entries.{TreeEntry, is_allowed_mode, Base}
use ai_hq.CodeChanges.Github.Requests.{post, Asking, give, demand, git_sha, nested_git_sha, request}
use ai_hq.CodeChanges.Github.Base.{GithubCandidatePublisher, root_of, read_base}

abbrev pub is_path : String → TreeEntry → Bool
is_path path e = str_eq e.path path

-- `existing.get("mode") if existing is not None else "100644"`
abbrev pub mode_of : Option TreeEntry → String
mode_of none = "100644"
mode_of (some e) = e.mode

-- `{"path": path, "mode": mode, "type": "blob", "sha": sha}`
abbrev pub change_of : String → String → Json → Json
change_of path mode sha = obj (
    field "path" (text path)
      (field "mode" (text mode) (field "type" (text "blob") (field "sha" sha end))))

-- The answer about a new commit names its tree, if it does, as the tree that was sent.
unfoldable pub same_tree : String → Option Json → Result String
unfolding git_sha get_field
same_tree tree (some (obj returned)) =
    elim (git_sha (get_field "sha" returned) "GitHub published commit tree identity is invalid") [
      | err e ↦ err e
      | ok sha ↦ demand (str_eq sha tree) "GitHub published commit tree mismatch" (ok tree)
    ]
same_tree tree v = ok tree

module _ (p : GithubCandidatePublisher) (target : RepositoryPublishTarget)
    (candidate : PersistedCandidate) where
  abbrev pub send : String → Fields → Asking Fields
  send url body = request p.http p.token post (text_append (root_of target) url) (some (obj body))

  abbrev pub blob_body : List ℕ → Fields
  blob_body content =
      field "content" (text (b64encode content)) (field "encoding" (text "base64") end)

  -- The blob of a changed file, which is null for a deleted one.
  unfoldable pub blob_sha : Option TreeEntry → Option (List ℕ) → Asking Json
  unfolding request git_sha b64encode
  blob_sha existing none =
      give (demand (not (is_none existing)) "verified deletion is absent from base tree" (ok null))
  blob_sha existing (some content) = send "/git/blobs" (blob_body content) >>= λ blob.
      give (git_sha (get_field "sha" blob) "GitHub blob identity is invalid") >>= λ sha.
      pure (text sha)

  -- The entry of a changed file with the content that was read.
  unfoldable pub entry_with : Option TreeEntry → String → Option (List ℕ) → Asking Json
  unfolding blob_sha
  entry_with existing path content =
      give (
        demand (is_allowed_mode (some (mode_of existing))) "candidate file has unsupported Git mode"
          (ok (mode_of existing)))
      >>= λ mode. blob_sha existing content >>= λ sha. pure (change_of path mode sha)

  -- The body of the loop over the changed files.
  unfoldable pub changed_entry : List TreeEntry → String → Asking Json
  unfolding find entry_with read_changed_file
  changed_entry entries path = give (read_changed_file p.files candidate path) >>= λ content.
      entry_with (find (is_path path) entries) path content

  unfoldable pub changed_entries : List TreeEntry → List String → Asking Items
  unfolding changed_entry
  changed_entries entries [] = pure nil
  changed_entries entries (path ∷ paths) = changed_entry entries path >>= λ change.
      changed_entries entries paths >>= λ changes. pure (cons change changes)

  abbrev pub tree_body : String → Items → Fields
  tree_body base_tree changes = field "base_tree" (text base_tree) (field "tree" (arr changes) end)

  -- `{"message": ..., "tree": tree_sha, "parents": [candidate.base_commit]}`
  abbrev pub commit_body : String → Fields
  commit_body tree_sha =
      field "message" (text (text_append "AI HQ verified candidate " (cut 19 candidate.change_ref)))
        (field "tree" (text tree_sha)
          (field "parents" (arr (cons (text candidate.base_commit) nil)) end))

  abbrev pub ref_body : String → String → Fields
  ref_body branch_name commit_sha =
      field "ref" (text (text_append "refs/heads/" branch_name)) (field "sha" (text commit_sha) end)

  abbrev pub published_as : String → String → String → PublishedCandidate
  published_as branch_name commit_sha tree_sha = record {
    repository = candidate.repository;
    change_ref = candidate.change_ref;
    branch_name = branch_name;
    commit_sha = commit_sha;
    tree_sha = tree_sha;
    base_commit = candidate.base_commit;
  }

  -- The objects of the candidate: its commit and its tree.
  unfoldable pub write_objects : Base → Asking (String × String)
  unfolding order_by text_before changed_entries request git_sha same_tree cut
  write_objects base =
      changed_entries base.entries (order_by text_before candidate.changed_files) >>= λ changes.
      send "/git/trees" (tree_body base.tree changes) >>= λ new_tree.
      give (git_sha (get_field "sha" new_tree) "GitHub published tree identity is invalid")
      >>= λ tree_sha. send "/git/commits" (commit_body tree_sha) >>= λ new_commit.
          give (git_sha (get_field "sha" new_commit) "GitHub published commit identity is invalid")
          >>= λ commit_sha. give (same_tree tree_sha (get_field "tree" new_commit)) >>= λ _.
              pure (commit_sha, tree_sha)

  -- What GitHub's answer says of the new branch.
  unfoldable pub created_as : String × String → String → Fields → Result PublishedCandidate
  unfolding nested_git_sha published_candidate
  created_as (commit_sha, tree_sha) branch_name created =
      Checks.◌>>=◌ (nested_git_sha "object" "GitHub published ref identity is invalid" created)
        (λ created_sha.
          demand (str_eq created_sha commit_sha) "GitHub published ref commit mismatch"
            (published_candidate (published_as branch_name commit_sha tree_sha)))

  -- The branch on that commit.
  unfoldable pub create_branch : String × String → String → Asking PublishedCandidate
  unfolding request created_as
  create_branch written branch_name =
      send "/git/refs" (ref_body branch_name written.0) >>= λ created.
      give (created_as written branch_name created)

  unfoldable pub create_ref : String × String → Asking PublishedCandidate
  unfolding generated_branch_name create_branch
  create_ref written =
      give
        (generated_branch_name target (p.mission_digest candidate.mission_id) candidate.change_ref)
      >>= create_branch written

  unfoldable pub publish_to : Asking PublishedCandidate
  unfolding read_base write_objects create_ref
  publish_to =
      read_base p target candidate >>= λ base. write_objects base >>= λ written. create_ref written

-- `GitHubCandidatePublisher.publish`
unfoldable pub publish : GithubCandidatePublisher → PersistedCandidate → Asking PublishedCandidate
unfolding is_git_sha get_target publish_to
publish p candidate =
    give (
      check
        (not (str_eq candidate.base_commit "0000000000000000000000000000000000000000")
          && is_git_sha candidate.base_commit)
        "candidate base commit must be an exact Git commit"
        (get_target p.targets candidate.repository))
    >>= λ target. publish_to p target candidate
