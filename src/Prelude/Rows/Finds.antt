-- ===== src/Prelude/Rows/Finds.antt =====
-- What `find` sees after an update or an insertion, and row counts.
use mathlib.Core.Path.{◌≡◌, refl, subst}
use mathlib.Core.Logic.{inl, inr}
use mathlib.Core.Bool.{Bool, true}
use mathlib.Core.Option.{Option, none, some}
use mathlib.Core.Option
use mathlib.Core.List.{List, [], ◌∷◌, ◌++◌}
use native.Mathlib.Omega.{arith}
use ai_hq.Prelude.Tests.{if◌then◌else◌, Bool-cases}
use ai_hq.Prelude.Rows.{find, update_where}

module _ {ℓ} {A : Type ℓ} where
  -- What an update does to one row.
  abbrev pub updated : (A → Bool) → (A → A) → A → A
  updated p f x = if p x then f x else x

  -- An update that leaves the searched columns alone changes the found row only.
  pub find-update_where :
      (q p : A → Bool) (f : A → A) (xs : List A)
      → ((x : A) → q (updated p f x) ≡ q x)
      → find q (update_where p f xs) ≡ Option.map (updated p f) (find q xs)
  unfolding find update_where
  find-update_where q p f [] same = refl
  find-update_where q p f (x ∷ xs) same = elim (Bool-cases (q x)) [
    | inl t ↦ rw (same x, t) refl
    | inr t ↦ rw (same x, t) (find-update_where q p f xs same)
  ]

  pub find-append :
      (q : A → Bool) (xs ys : List A) {a : A} → find q xs ≡ some a → find q (xs ++ ys) ≡ some a
  unfolding find
  find-append q [] ys h = cc
  find-append q (x ∷ xs) ys h = elim (Bool-cases (q x)) [
    | inl t ↦ rw t (rw t at h)
    | inr t ↦ rw t (find-append q xs ys (rw t at h))
  ]

  pub find-append_none :
      (q : A → Bool) (xs ys : List A) → find q xs ≡ none → find q (xs ++ ys) ≡ find q ys
  unfolding find
  find-append_none q [] ys h = refl
  find-append_none q (x ∷ xs) ys h = elim (Bool-cases (q x)) [
    | inl t ↦ cc (subst (λ b. (if b then some x else find q xs) ≡ none) t h)
    | inr t ↦ rw t (find-append_none q xs ys (rw t at h))
  ]

  pub find_test : (q : A → Bool) (xs : List A) {a : A} → find q xs ≡ some a → q a ≡ true
  unfolding find
  find_test q [] h = cc
  find_test q (x ∷ xs) {a} h = elim (Bool-cases (q x)) [
    | inl t ↦ ground (arith, t, h)
    | inr t ↦ find_test q xs (rw t at h)
  ]

module _ {ℓ κ} {A : Type ℓ} {B : Type κ} where
  -- A column that an update of a row leaves alone.
  pub updated_column :
      (column : A → B) (p : A → Bool) (f : A → A) (x : A)
      → column (f x) ≡ column x
      → column (updated p f x) ≡ column x
  updated_column column p f x same = elim (Bool-cases (p x)) [
    | inl t ↦ rw t same
    | inr t ↦ rw t refl
  ]
