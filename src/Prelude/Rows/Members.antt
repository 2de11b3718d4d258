-- ===== src/Prelude/Rows/Members.antt =====
-- Which rows the statements of `Rows` return, and which rows are there after an update.
use mathlib.Core.Path.{◌≡◌, refl, sym, ap, subst}
use mathlib.Core.Logic.{inl, inr}
use mathlib.Core.Bool.{Bool, true, false}
use mathlib.Core.Option.{none, some}
use mathlib.Core.List.{List, [], ◌∷◌, ◌++◌, Memᴰ}
use mathlib.Core.List.Memᴰ
use ai_hq.Prelude.Tests.{if◌then◌else◌, Bool-cases, Option-cases, some_cancel}
use ai_hq.Prelude.Lists.{All, any}
use ai_hq.Prelude.Rows.{find, where_rows, update_where, first_by}

module _ {ℓ} {A : Type ℓ} where
  pub find-mem :
      (p : A → Bool) (xs : List A) (y : A) → find p xs ≡ some y → Memᴰ y xs × (p y ≡ true)
  unfolding find
  find-mem p [] y h = cc
  find-mem p (x ∷ xs) y h = elim (Bool-cases (p x)) [
    | inl e ↦
        let same : x ≡ y = some_cancel (rw e at h) in
        (Memᴰ.head (sym same), subst (λ z. p z ≡ true) same e)
    | inr e ↦ let (m, t) = find-mem p xs y (rw e at h) in (Memᴰ.tail m, t)
  ]

  pub find-none : (p : A → Bool) (xs : List A) (y : A) → find p xs ≡ none → Memᴰ y xs → p y ≡ false
  unfolding find
  find-none p [] y h m = absurd (Memᴰ.not-nil m)
  find-none p (x ∷ xs) y h (Memᴰ.head e) = elim (Bool-cases (p x)) [
    | inl t ↦ cc (subst (λ b. (if b then some x else find p xs) ≡ none) t h)
    | inr t ↦ rw e t
  ]
  find-none p (x ∷ xs) y h (Memᴰ.tail m) = elim (Bool-cases (p x)) [
    | inl t ↦ cc (subst (λ b. (if b then some x else find p xs) ≡ none) t h)
    | inr t ↦ find-none p xs y (rw t at h) m
  ]

  -- Every row after an update is an old row, changed where the condition held.
  pub mem-update_where :
      (p : A → Bool) (f : A → A) (xs : List A) (y : A)
      → Memᴰ y (update_where p f xs)
      → (x : A) × Memᴰ x xs × (y ≡ (if p x then f x else x))
  unfolding update_where
  mem-update_where p f [] y m = absurd (Memᴰ.not-nil m)
  mem-update_where p f (x ∷ xs) y (Memᴰ.head e) = (x, Memᴰ.head refl, e)
  mem-update_where p f (x ∷ xs) y (Memᴰ.tail m) =
      let (z, mz, e) = mem-update_where p f xs y m in (z, Memᴰ.tail mz, e)

  pub update_where-mem :
      (p : A → Bool) (f : A → A) (xs : List A) (x : A)
      → Memᴰ x xs
      → Memᴰ (if p x then f x else x) (update_where p f xs)
  unfolding update_where
  update_where-mem p f [] x m = absurd (Memᴰ.not-nil m)
  update_where-mem p f (x' ∷ xs) x (Memᴰ.head e) = Memᴰ.head (ap (λ z. if p z then f z else z) e)
  update_where-mem p f (x' ∷ xs) x (Memᴰ.tail m) = Memᴰ.tail (update_where-mem p f xs x m)

  pub where_rows-mem :
      (p : A → Bool) (xs : List A) (y : A) → Memᴰ y (where_rows p xs) → Memᴰ y xs × (p y ≡ true)
  unfolding where_rows
  where_rows-mem p [] y m = absurd (Memᴰ.not-nil m)
  where_rows-mem p (x ∷ xs) y m = elim (Bool-cases (p x)) [
    | inl t ↦ elim (Memᴰ.cases_cons (rw t at m)) [
      | inl e ↦ (Memᴰ.head e, rw e t)
      | inr m' ↦ let (k, q) = where_rows-mem p xs y m' in (Memᴰ.tail k, q)
    ]
    | inr t ↦ let (k, q) = where_rows-mem p xs y (rw t at m) in (Memᴰ.tail k, q)
  ]

  pub mem-where_rows :
      (p : A → Bool) (xs : List A) (y : A) → Memᴰ y xs → p y ≡ true → Memᴰ y (where_rows p xs)
  unfolding where_rows
  mem-where_rows p [] y m t = absurd (Memᴰ.not-nil m)
  mem-where_rows p (x ∷ xs) y (Memᴰ.head e) t = rw (subst (λ z. p z ≡ true) e t) (Memᴰ.head e)
  mem-where_rows p (x ∷ xs) y (Memᴰ.tail m) t = elim (Bool-cases (p x)) [
    | inl q ↦ rw q (Memᴰ.tail (mem-where_rows p xs y m t))
    | inr q ↦ rw q (mem-where_rows p xs y m t)
  ]

  pub All-mem {κ} : (P : A → Type κ) (xs : List A) (x : A) → All P xs → Memᴰ x xs → P x
  All-mem P [] x a m = absurd (Memᴰ.not-nil m)
  All-mem P (y ∷ xs) x a (Memᴰ.head e) = subst P (sym e) a.0
  All-mem P (y ∷ xs) x a (Memᴰ.tail m) = All-mem P xs x a.1 m

  pub All-append {κ} : (P : A → Type κ) (xs ys : List A) → All P xs → All P ys → All P (xs ++ ys)
  All-append P [] ys hx hy = hy
  All-append P (x ∷ xs) ys hx hy = (hx.0, All-append P xs ys hx.1 hy)

-- A strict order of rows, as `ORDER BY` uses it.
pub record IsOrder {ℓ} {A : Type ℓ} (before : A → A → Bool) : Type ℓ where
  pub irrefl : (x : A) → before x x ≡ false
  pub asym : (x y : A) → before x y ≡ true → before y x ≡ false
  pub neg_trans : (x y z : A) → before x y ≡ false → before y z ≡ false → before x z ≡ false

module _ {ℓ} {A : Type ℓ} where
  pub first_by-mem :
      (before : A → A → Bool) (xs : List A) (y : A) → first_by before xs ≡ some y → Memᴰ y xs
  unfolding first_by
  first_by-mem before [] y h = cc
  first_by-mem before (x ∷ xs) y h = elim (Option-cases (first_by before xs)) [
    | inl e ↦ Memᴰ.head (sym (some_cancel (rw e at h)))
    | inr (z, e) ↦ elim (Bool-cases (before z x)) [
      | inl t ↦
          Memᴰ.tail
            (subst (λ w. Memᴰ w xs) (some_cancel (rw (e, t) at h)) (first_by-mem before xs z e))
      | inr t ↦ Memᴰ.head (sym (some_cancel (rw (e, t) at h)))
    ]
  ]

  pub first_by-none : (before : A → A → Bool) (xs : List A) → first_by before xs ≡ none → xs ≡ []
  unfolding first_by
  first_by-none before [] h = refl
  first_by-none before (x ∷ xs) h = elim (Option-cases (first_by before xs)) [
    | inl e ↦ cc (rw e at h)
    | inr (z, e) ↦ elim (Bool-cases (before z x)) [
      | inl t ↦ cc (rw (e, t) at h)
      | inr t ↦ cc (rw (e, t) at h)
    ]
  ]

  -- No row stands before the first one.
  pub first_by-least :
      (before : A → A → Bool) (ord : IsOrder before) (xs : List A) (y z : A)
      → first_by before xs ≡ some y
      → Memᴰ z xs
      → before z y ≡ false
  unfolding first_by
  first_by-least before ord [] y z h m = cc
  first_by-least before ord (x ∷ xs) y z h m = elim (Option-cases (first_by before xs)) [
    | inl e ↦ elim (Memᴰ.cases_cons m) [
      | inl ez ↦ rw (ez, ← some_cancel (rw e at h)) (ord.irrefl x)
      | inr mz ↦ absurd (Memᴰ.not-nil (subst (λ l. Memᴰ z l) (first_by-none before xs e) mz))
    ]
    | inr (w, e) ↦ elim (Bool-cases (before w x)) [
      | inl t ↦
          subst (λ k. before z k ≡ false) (some_cancel (rw (e, t) at h))
            (elim (Memᴰ.cases_cons m) [
              | inl ez ↦ rw ez (ord.asym w x t)
              | inr mz ↦ first_by-least before ord xs w z e mz
            ])
      | inr t ↦
          subst (λ k. before z k ≡ false) (some_cancel (rw (e, t) at h))
            (elim (Memᴰ.cases_cons m) [
              | inl ez ↦ rw ez (ord.irrefl x)
              | inr mz ↦ ord.neg_trans z w x (first_by-least before ord xs w z e mz) t
            ])
    ]
  ]

module _ {ℓ} {A : Type ℓ} where
  pub any-mem : (p : A → Bool) (xs : List A) → any p xs ≡ true → (x : A) × Memᴰ x xs × (p x ≡ true)
  any-mem p [] h = cc
  any-mem p (x ∷ xs) h = elim (Bool-cases (p x)) [
    | inl t ↦ (x, Memᴰ.head refl, t)
    | inr t ↦ let (y, my, q) = any-mem p xs (rw t at h) in (y, Memᴰ.tail my, q)
  ]

  pub mem-any : (p : A → Bool) (xs : List A) (x : A) → Memᴰ x xs → p x ≡ true → any p xs ≡ true
  mem-any p [] x m t = absurd (Memᴰ.not-nil m)
  mem-any p (y ∷ xs) x (Memᴰ.head e) t = rw (subst (λ z. p z ≡ true) e t) refl
  mem-any p (y ∷ xs) x (Memᴰ.tail m) t = elim (Bool-cases (p y)) [
    | inl q ↦ rw q refl
    | inr q ↦ rw q (mem-any p xs x m t)
  ]

  pub where_rows-append :
      (p : A → Bool) (xs ys : List A) → where_rows p (xs ++ ys) ≡ where_rows p xs ++ where_rows p ys
  unfolding where_rows
  where_rows-append p [] ys = refl
  where_rows-append p (x ∷ xs) ys = elim (Bool-cases (p x)) [
    | inl t ↦ rw t (rw (where_rows-append p xs ys) refl)
    | inr t ↦ rw t (where_rows-append p xs ys)
  ]
