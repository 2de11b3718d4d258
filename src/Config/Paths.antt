-- ===== src/Config/Paths.antt =====
-- Paths as `Path(text).expanduser().resolve()` gives them: absolute, so a list of names. A path of
-- the repository policy is compared with others only.
use ai_hq.Prelude.{
  String, Bool, true, false, ◌&&◌, ◌||◌, List, [], ◌∷◌, ◌++◌, str_eq, eq_iff, ◌≡◌, refl, ◌⊎◌, inl,
  inr, Bool-cases, arith,
}

abbrev pub FilePath : Type 0
FilePath = List String

-- `first == second`
unfoldable pub same_path : FilePath → FilePath → Bool
same_path [] [] = true
same_path [] (b ∷ bs) = false
same_path (a ∷ as_) [] = false
same_path (a ∷ as_) (b ∷ bs) = str_eq a b && same_path as_ bs

-- `root in path.parents`
unfoldable pub is_parent : FilePath → FilePath → Bool
is_parent [] [] = false
is_parent [] (b ∷ bs) = true
is_parent (a ∷ as_) [] = false
is_parent (a ∷ as_) (b ∷ bs) = str_eq a b && is_parent as_ bs

-- `_contains`
unfoldable pub contains : FilePath → FilePath → Bool
unfolding same_path is_parent
contains root candidate = same_path candidate root || is_parent root candidate

-- `_overlaps`
unfoldable pub overlaps : FilePath → FilePath → Bool
unfolding same_path is_parent
overlaps first second = same_path first second || is_parent first second || is_parent second first

-- The path lies beneath the root, and is not the root.
abbrev pub Beneath : FilePath → FilePath → Type 0
Beneath root path = (name : String) × (rest : List String) × (path ≡ root ++ (name ∷ rest))

-- One of the paths is the other or lies beneath it.
abbrev pub Touches : FilePath → FilePath → Type 0
Touches first second = (first ≡ second) ⊎ (Beneath first second ⊎ Beneath second first)

-- The tests say what they mean.
pub eq_of_same : (xs ys : FilePath) → same_path xs ys ≡ true → xs ≡ ys
unfolding same_path
eq_of_same [] [] h = refl
eq_of_same [] (y ∷ ys) h = cc
eq_of_same (x ∷ xs) [] h = cc
eq_of_same (x ∷ xs) (y ∷ ys) h = ground (arith, eq_iff x y, eq_of_same xs ys)

pub same_path_refl : (xs : FilePath) → same_path xs xs ≡ true
unfolding same_path
same_path_refl [] = refl
same_path_refl (x ∷ xs) = rw ((eq_iff x x).1 refl) (same_path_refl xs)

pub is_parent-Beneath : (xs ys : FilePath) → is_parent xs ys ≡ true → Beneath xs ys
unfolding is_parent
is_parent-Beneath [] [] h = cc
is_parent-Beneath [] (y ∷ ys) h = (y, ys, refl)
is_parent-Beneath (x ∷ xs) [] h = cc
is_parent-Beneath (x ∷ xs) (y ∷ ys) h = elim (Bool-cases (str_eq x y)) [
  | inl t ↦
      let (name, rest, e) = is_parent-Beneath xs ys (rw t at h) in
      (name, rest, cc (e, (eq_iff x y).0 t))
  | inr t ↦ cc (rw t at h)
]

pub is_parent-beneath :
    (xs : FilePath) (name : String) (rest : List String) → is_parent xs (xs ++ (name ∷ rest)) ≡ true
unfolding is_parent
is_parent-beneath [] name rest = refl
is_parent-beneath (x ∷ xs) name rest = rw ((eq_iff x x).1 refl) (is_parent-beneath xs name rest)
