-- ===== src/CodeChanges/Github/Writes.antt =====
-- code_changes/publisher.py: what a publication does on GitHub.
use ai_hq.Prelude.{Memᴰ, ℕ, String, Option, none, some, List, [], ◌∷◌, ◌≡◌}
use Prim.Native.String.{◌++◌ as text_append}
use ai_hq.Prelude.Result.{ok, pure, ◌>>=◌}
use ai_hq.Prelude.Rows.{find}
use ai_hq.Json.{Items, Fields, obj}
use ai_hq.CodeChanges.Candidates.{PersistedCandidate}
use ai_hq.CodeChanges.Github.Targets.{RepositoryPublishTarget}
use ai_hq.CodeChanges.Files.{read_changed_file, read_changed_file-mem}
use ai_hq.CodeChanges.Github.Entries.{TreeEntry, is_allowed_mode, Base}
use ai_hq.CodeChanges.Github.Requests.{HttpRequest, get, post, demand, request_to}
use ai_hq.CodeChanges.Github.Base.{GithubCandidatePublisher, root_of, ask, current_base, read_base}
use ai_hq.CodeChanges.Github.Publisher.{
  is_path, mode_of, change_of, blob_body, blob_sha, entry_with, changed_entry, changed_entries,
  tree_body, commit_body, write_objects,
}
use ai_hq.CodeChanges.Github.Asks.{Asks, give-Asks, bind-Asks, bind_give-Asks, request-Asks}

module _ (p : GithubCandidatePublisher) (target : RepositoryPublishTarget)
    (candidate : PersistedCandidate) where
  -- A read of the repository.
  pub data IsRead : HttpRequest → Type 0 where
    read :
        (url : String)
        → IsRead (request_to p.http p.token get (text_append (root_of target) url) none)

  abbrev pub post_to : String → Fields → HttpRequest
  post_to url body =
      request_to p.http p.token post (text_append (root_of target) url) (some (obj body))

  -- A write that creates an object and moves no branch: the contents of a changed file of the candidate, a
  -- tree, or a commit whose only parent is the base commit of the candidate.
  pub data IsObject : HttpRequest → Type 0 where
    blob :
        (path : String) (content : List ℕ)
        → Memᴰ path candidate.changed_files
        → read_changed_file p.files candidate path ≡ ok (some content)
        → IsObject (post_to "/git/blobs" (blob_body p target candidate content))
    tree :
        (base : String) (changes : Items)
        → IsObject (post_to "/git/trees" (tree_body p target candidate base changes))
    commit :
        (tree_sha : String)
        → IsObject (post_to "/git/commits" (commit_body p target candidate tree_sha))

  ask-Asks : (url : String) → Asks IsRead (ask p target candidate url)
  ask-Asks url =
      request-Asks IsRead p.http p.token get (text_append (root_of target) url) none (read url)

  current_base-Asks : (remote : String) → Asks IsRead (current_base p target candidate remote)
  unfolding current_base
  current_base-Asks remote = search (bind-Asks, give-Asks, ask-Asks)

  blob_sha-Asks :
      (existing : Option TreeEntry) (path : String) (content : Option (List ℕ))
      → read_changed_file p.files candidate path ≡ ok content
      → Asks IsObject (blob_sha p target candidate existing content)
  unfolding blob_sha
  blob_sha-Asks existing path none h = give-Asks IsObject _
  blob_sha-Asks existing path (some content) h = search (
    bind-Asks,
    give-Asks,
    request-Asks,
    blob path content (read_changed_file-mem p.files candidate path h) h,
  )

  entry_with-Asks :
      (existing : Option TreeEntry) (path : String) (content : Option (List ℕ))
      → read_changed_file p.files candidate path ≡ ok content
      → Asks IsObject (entry_with p target candidate existing path content)
  unfolding entry_with
  entry_with-Asks existing path content h =
      let there = blob_sha-Asks existing path content h in
      bind_give-Asks IsObject
        (demand (is_allowed_mode (some (mode_of existing)))
          "candidate file has unsupported Git mode" (ok (mode_of existing)))
        (λ mode.
          blob_sha p target candidate existing content >>= λ sha. pure (change_of path mode sha))
        (λ mode _.
          bind-Asks IsObject (blob_sha p target candidate existing content)
            (λ sha. pure (change_of path mode sha)) there (λ sha. give-Asks IsObject _))

  changed_entry-Asks :
      (entries : List TreeEntry) (path : String)
      → Asks IsObject (changed_entry p target candidate entries path)
  unfolding changed_entry
  changed_entry-Asks entries path =
      bind_give-Asks IsObject (read_changed_file p.files candidate path)
        (entry_with p target candidate (find (is_path path) entries) path)
        (entry_with-Asks (find (is_path path) entries) path)

  changed_entries-Asks :
      (entries : List TreeEntry) (paths : List String)
      → Asks IsObject (changed_entries p target candidate entries paths)
  unfolding changed_entries
  changed_entries-Asks entries [] = give-Asks IsObject _
  changed_entries-Asks entries (path ∷ paths) =
      let first = changed_entry-Asks entries path in
      let others = changed_entries-Asks entries paths in
      search (bind-Asks, give-Asks, first, others)

  pub write_objects-Asks : (base : Base) → Asks IsObject (write_objects p target candidate base)
  unfolding write_objects
  write_objects-Asks base =
      search (bind-Asks, give-Asks, request-Asks, changed_entries-Asks, tree, commit) depth 16

  pub read_base-Asks : Asks IsRead (read_base p target candidate)
  unfolding read_base
  read_base-Asks = search (bind-Asks, give-Asks, request-Asks, current_base-Asks, read)
