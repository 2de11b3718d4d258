-- ===== src/Operations/Texts.antt =====
-- Tests of Python on texts that are known to be ASCII.
use ai_hq.Prelude.{ℕ, String, Bool, true, ◌&&◌, ◌||◌, ◌==◌, leb, ltb}
use Prim.Native.Char.{Char, code}
use Prim.Native.String.{[], ◌∷◌}

-- Whether all characters of a text pass a test.
unfoldable pub all_chars : (Char → Bool) → String → Bool
all_chars p [] = true
all_chars p (c ∷ s) = p c && all_chars p s

-- `str.isascii`
abbrev pub is_ascii : String → Bool
is_ascii s = all_chars (λ c. ltb (code c) 128) s

abbrev pub in_range : ℕ → ℕ → Char → Bool
in_range a b c = leb a (code c) && leb (code c) b

-- `char.isalnum() or char in "._-"`, for an ASCII character: digits, letters, and the numbers of
-- the three signs.
unfoldable pub is_release_char : Char → Bool
is_release_char c =
    in_range 48 57 c
    || in_range 65 90 c
    || in_range 97 122 c
    || code c == 46
    || code c == 95
    || code c == 45
