-- ===== src/CodeChanges/Github/Entries.antt =====
-- code_changes/publisher.py: what `GitHubCandidatePublisher.publish` takes from GitHub's answer about
-- the tree of the base.
use ai_hq.Prelude.{
  String, Bool, true, false, not, ◌||◌, Option, none, some, List, [], ◌∷◌, str_eq, if◌then◌else◌,
}
use ai_hq.Prelude.Result.{Result, ok, err, runtime_error, type_error}
use ai_hq.Prelude.Checks.{◌>>=◌}
use ai_hq.Json.{Json, Items, Fields, bool, text, arr, obj, nil, cons, end, field, get_field}
use ai_hq.CodeChanges.Github.Requests.{demand}

-- A file of the base: its path and its mode.
pub record TreeEntry : Type 0 where
  pub path : String
  pub mode : String

-- `tree.get("tree", [])`, as what a loop over it meets.
unfoldable pub entries_of : Option Json → Result Items
entries_of none = ok nil
entries_of (some (arr xs)) = ok xs
entries_of (some (obj end)) = ok nil
entries_of (some (obj (field k v fs))) = ok (cons (text k) nil)
entries_of (some (text s)) = ok (if str_eq s "" then nil else cons (text s) nil)
entries_of (some v) = err (type_error "not iterable")

-- A value as a member of a set of texts; lists and dicts have no hash.
unfoldable pub hashed : Option Json → Result (Option String)
hashed (some (text s)) = ok (some s)
hashed (some (arr xs)) = err (type_error "unhashable")
hashed (some (obj fs)) = err (type_error "unhashable")
hashed v = ok none

abbrev pub is_mode : String → Option String → Bool
is_mode mode none = false
is_mode mode (some s) = str_eq s mode

-- `mode in _ALLOWED_BLOB_MODES`
abbrev pub is_allowed_mode : Option String → Bool
is_allowed_mode m = is_mode "100644" m || is_mode "100755" m

abbrev is_text : String → Option Json → Bool
is_text s (some (text t)) = str_eq t s
is_text s v = false

abbrev pub or_empty_text : Option String → String
or_empty_text none = ""
or_empty_text (some s) = s

-- The checks of an entry that is no directory.
unfoldable pub blob_entry : String → Option Json → Option Json → Result (Option TreeEntry)
unfolding hashed
blob_entry path mode kind = hashed mode >>= λ m.
    demand (not (is_mode "120000" m || is_mode "160000" m))
      "GitHub base tree contains unsupported symlink or submodule entry"
      (demand (is_text "blob" kind) "GitHub base tree contains unsupported non-blob entry" (
        demand (is_allowed_mode m) "GitHub base tree contains unsupported blob mode"
          (ok (some (record { path = path; mode = or_empty_text m })))))

abbrev pub tree_or_blob : Bool → String → Option Json → Option Json → Result (Option TreeEntry)
tree_or_blob true path mode kind =
    demand (is_text "040000" mode) "GitHub base tree contains invalid directory mode" (ok none)
tree_or_blob false path mode kind = blob_entry path mode kind

-- The body of the loop: an entry of the base, or none for a directory.
unfoldable pub base_entry : Json → Result (Option TreeEntry)
unfolding get_field blob_entry
base_entry (obj entry) = elim (get_field "path" entry) [
  | some v ↦ (elim v [
    | text path ↦
        tree_or_blob (is_text "tree" (get_field "type" entry)) path (get_field "mode" entry)
          (get_field "type" entry)
    | _ ↦ err (runtime_error "GitHub base tree path is invalid")
  ])
  | none ↦ err (runtime_error "GitHub base tree path is invalid")
]
base_entry _ = err (runtime_error "GitHub base tree is invalid")

abbrev pub with_entry : Option TreeEntry → List TreeEntry → List TreeEntry
with_entry none done = done
with_entry (some e) done = e ∷ done

-- The loop, where the latest entry of a path stands first.
unfoldable pub base_entries : Items → List TreeEntry → Result (List TreeEntry)
unfolding base_entry
base_entries nil done = ok done
base_entries (cons v rest) done = base_entry v >>= λ e. base_entries rest (with_entry e done)

pub record Base : Type 0 where
  pub tree : String
  pub entries : List TreeEntry

abbrev pub is_true : Option Json → Bool
is_true (some (bool b)) = b
is_true v = false

-- The base, from the answer about its tree.
unfoldable pub base_of : String → Fields → Result Base
unfolding get_field entries_of base_entries
base_of base_tree tree =
    demand (not (is_true (get_field "truncated" tree))) "GitHub base tree is truncated" (
      entries_of (get_field "tree" tree) >>= λ items.
      base_entries items [] >>= λ entries. ok (record { tree = base_tree; entries = entries }))
