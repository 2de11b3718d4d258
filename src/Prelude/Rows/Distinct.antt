-- ===== src/Prelude/Rows/Distinct.antt =====
-- Tables whose primary keys are distinct: what an update by key counts and leaves.
use Prim.Native.Nat.{ℕ, suc, ◌≤◌, ◌<◌}
use mathlib.Core.Path.{◌≡◌, refl, sym, ap, subst}
use mathlib.Core.Logic.{inl, inr, ◌≢◌}
use mathlib.Core.Bool.{Bool, true, false}
use mathlib.Core.Option.{none, some}
use mathlib.Core.List.{List, [], ◌∷◌, ◌++◌, Memᴰ}
use mathlib.Core.List.Memᴰ
use native.Mathlib.Omega.{arith}
use ai_hq.Prelude.Tests.{if◌then◌else◌, Bool-cases, some_cancel, ◌==◌}
use ai_hq.Prelude.Lists.{All}
use ai_hq.Prelude.Rows.{find, update_where, row_count}
use ai_hq.Prelude.Rows.Members.{All-mem, All-append}
use ai_hq.Prelude.Rows.Finds.{updated}

module _ {ℓ} {A : Type ℓ} (key : A → ℕ) where
  -- No two rows have one key.
  abbrev pub Distinct : List A → Type 0
  Distinct [] = Unit
  Distinct (x ∷ xs) = All (λ y. key x ≢ key y) xs × Distinct xs

  -- Every key is below the counter.
  abbrev pub Below : ℕ → List A → Type 0
  Below n xs = All (λ x. key x < n) xs

  pub Below-weaken : (n k : ℕ) (xs : List A) → n ≤ k → Below n xs → Below k xs
  Below-weaken n k [] le b = b
  Below-weaken n k (x ∷ xs) le b = (omega arith, Below-weaken n k xs le b.1)

  -- A row with the counter for its key is new.
  pub Distinct-append :
      (n : ℕ) (xs : List A) (x : A) → Below n xs → Distinct xs → key x ≡ n → Distinct (xs ++ x ∷ [])
  Distinct-append n [] x b d e = (tt, tt)
  Distinct-append n (y ∷ xs) x b d e = (
    All-append (λ z. key y ≢ key z) xs (x ∷ []) d.0 ((λ q. omega arith), tt),
    Distinct-append n xs x b.1 d.1 e,
  )

  pub Below-append :
      (n : ℕ) (xs : List A) (x : A) → Below n xs → key x ≡ n → Below (suc n) (xs ++ x ∷ [])
  Below-append n xs x b e =
      All-append (λ y. key y < suc n) xs (x ∷ []) (Below-weaken n (suc n) xs (omega arith) b)
        (omega arith, tt)

  All-key_update :
      (P : ℕ → Type 0) (p : A → Bool) (f : A → A) (xs : List A)
      → ((x : A) → key (updated p f x) ≡ key x)
      → All (λ x. P (key x)) xs
      → All (λ x. P (key x)) (update_where p f xs)
  unfolding update_where
  All-key_update P p f [] same a = a
  All-key_update P p f (x ∷ xs) same a =
      (subst P (sym (same x)) a.0, All-key_update P p f xs same a.1)

  pub Below-update :
      (n : ℕ) (p : A → Bool) (f : A → A) (xs : List A)
      → ((x : A) → key (updated p f x) ≡ key x)
      → Below n xs
      → Below n (update_where p f xs)
  Below-update n p f xs same b = All-key_update (λ k. k < n) p f xs same b

  pub Distinct-update :
      (p : A → Bool) (f : A → A) (xs : List A)
      → ((x : A) → key (updated p f x) ≡ key x)
      → Distinct xs
      → Distinct (update_where p f xs)
  unfolding update_where
  Distinct-update p f [] same d = d
  Distinct-update p f (x ∷ xs) same d = (
    All-key_update (λ k. key (updated p f x) ≢ k) p f xs same
        (subst (λ k. All (λ y. k ≢ key y) xs) (sym (same x)) d.0),
    Distinct-update p f xs same d.1,
  )

  row_count-apart :
      (k : ℕ) (p : A → Bool) (xs : List A)
      → ((x : A) → p x ≡ true → key x ≡ k)
      → All (λ y. k ≢ key y) xs
      → row_count p xs ≡ 0
  unfolding row_count
  row_count-apart k p [] only a = refl
  row_count-apart k p (x ∷ xs) only a = elim (Bool-cases (p x)) [
    | inl t ↦ absurd (a.0 (sym (only x t)))
    | inr t ↦ rw t (row_count-apart k p xs only a.1)
  ]

  -- A condition that picks at most the row with a key counts that row or none.
  pub row_count-key :
      (k : ℕ) (p : A → Bool) (xs : List A) (x : A)
      → ((y : A) → p y ≡ true → key y ≡ k)
      → Distinct xs
      → find (λ y. key y == k) xs ≡ some x
      → row_count p xs ≡ (if p x then 1 else 0)
  unfolding row_count find
  row_count-key k p [] x only d h = cc
  row_count-key k p (y ∷ ys) x only d h = elim (Bool-cases (key y == k)) [
    | inl t ↦
        let e : y ≡ x = some_cancel (rw t at h) in
        let at_k : key y ≡ k = ground arith in
        let rest = row_count-apart k p ys only (subst (λ n. All (λ z. n ≢ key z) ys) at_k d.0) in
        subst (λ z. row_count p (y ∷ ys) ≡ (if p z then 1 else 0)) e (rw rest refl)
    | inr t ↦ elim (Bool-cases (p y)) [
      | inl q ↦ absurd (ground (arith, t, only y q))
      | inr q ↦ rw q (row_count-key k p ys x only d.1 (rw t at h))
    ]
  ]

  -- A condition that picks at most the row with a key counts none if there is no such row.
  pub row_count-no_key :
      (k : ℕ) (p : A → Bool) (xs : List A)
      → ((y : A) → p y ≡ true → key y ≡ k)
      → find (λ y. key y == k) xs ≡ none
      → row_count p xs ≡ 0
  unfolding row_count find
  row_count-no_key k p [] only h = refl
  row_count-no_key k p (y ∷ ys) only h = elim (Bool-cases (key y == k)) [
    | inl t ↦ cc (rw t at h)
    | inr t ↦ elim (Bool-cases (p y)) [
      | inl q ↦ absurd (ground (arith, t, only y q))
      | inr q ↦ rw q (row_count-no_key k p ys only (rw t at h))
    ]
  ]

module _ {ℓ} {A : Type ℓ} (key : A → ℕ) where
  -- A row is found by its key.
  pub find-key :
      (xs : List A) (x : A) → Distinct key xs → Memᴰ x xs → find (λ y. key y == key x) xs ≡ some x
  unfolding find
  find-key [] x d m = absurd (Memᴰ.not-nil m)
  find-key (y ∷ ys) x d (Memᴰ.head e) =
      let t : (key y == key x) ≡ true = let k = ap key e in ground (arith, k) in
      rw t (ap some (sym e))
  find-key (y ∷ ys) x d (Memᴰ.tail m) =
      let t : (key y == key x) ≡ false =
        let k = All-mem (λ z. key y ≢ key z) ys x d.0 m in ground (arith, k) in
      rw t (find-key ys x d.1 m)
