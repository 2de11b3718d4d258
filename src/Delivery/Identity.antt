-- ===== src/Delivery/Identity.antt =====
-- delivery/service.py: the tests on texts before a method opens a session.
use ai_hq.Prelude.{
  ℕ, zero, suc, if◌then◌else◌, String, Bool, true, false, not, ◌&&◌, ◌||◌, ◌==◌, Option, none, some,
  ltb, str_eq,
}
use Prim.Native.Char.{Char, code}
use Prim.Native.String.{[], ◌∷◌}
use ai_hq.Recovery.Bounded.{text_length}
use ai_hq.Operations.Texts.{is_ascii, all_chars, is_release_char, in_range}

-- `text.startswith(prefix)`
unfoldable pub starts_with : String → String → Bool
starts_with [] s = true
starts_with (c ∷ p) [] = false
starts_with (c ∷ p) (d ∷ s) = (code c == code d) && starts_with p s

-- The characters that `strip` removes.
unfoldable pub is_space : Char → Bool
is_space c =
    in_range 9 13 c
    || in_range 28 32 c
    || code c == 133
    || code c == 160
    || code c == 5760
    || in_range 8192 8202 c
    || in_range 8232 8233 c
    || code c == 8239
    || code c == 8287
    || code c == 12288

-- `not text.strip()`
unfoldable pub is_blank : String → Bool
unfolding all_chars is_space
is_blank s = all_chars is_space s

abbrev is_hex_digit : Char → Bool
is_hex_digit c = in_range 48 57 c || in_range 97 102 c

-- `_GIT_SHA_RE.fullmatch(text)`
unfoldable pub is_git_sha : String → Bool
unfolding text_length all_chars
is_git_sha s = (text_length s == 40) && all_chars is_hex_digit s

-- `branch_name.startswith(_PUBLISH_BRANCH_PREFIX)`
unfoldable pub is_candidate_branch : String → Bool
unfolding starts_with
is_candidate_branch name = starts_with "ai-hq/candidate/" name

unfoldable pub release_id_valid : String → Bool
unfolding text_length all_chars is_release_char
release_id_valid id =
    not (ltb 128 (text_length id))
    && is_ascii id
    && not (str_eq id "")
    && all_chars is_release_char id

-- `bool(column)` of a nullable text
abbrev pub is_set : Option String → Bool
is_set none = false
is_set (some s) = not (str_eq s "")

-- `==` of nullable texts
abbrev pub same_text : Option String → Option String → Bool
same_text none none = true
same_text (some s) (some t) = str_eq s t
same_text _ _ = false

-- `value[n:]` on a text
unfoldable pub cut_left : ℕ → String → String
cut_left zero s = s
cut_left (suc n) [] = []
cut_left (suc n) (c ∷ s) = cut_left n s

unfoldable pub strip_left : String → String
unfolding is_space
strip_left [] = []
strip_left (c ∷ s) = let rest = strip_left s in if is_space c then rest else c ∷ s

unfoldable pub strip_right : String → String
unfolding is_space
strip_right [] = []
strip_right (c ∷ s) =
    let rest = strip_right s in if is_space c && str_eq rest "" then [] else c ∷ rest

-- `text.strip()`
unfoldable pub strip : String → String
unfolding strip_left strip_right
strip s = strip_right (strip_left s)

-- `_SHA256_RE.fullmatch(text)`
unfoldable pub is_sha256 : String → Bool
unfolding text_length all_chars starts_with cut_left
is_sha256 s =
    starts_with "sha256:" s && (text_length s == 71) && all_chars is_hex_digit (cut_left 7 s)
