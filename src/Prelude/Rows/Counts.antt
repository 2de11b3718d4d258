-- ===== src/Prelude/Rows/Counts.antt =====
-- How many rows meet a condition, and the row that alone does.
use mathlib.Core.Path.{◌≡◌, refl, ap, ◌∙◌}
use mathlib.Core.Logic.{◌↔◌, inl, inr}
use mathlib.Core.Bool.{Bool, true, false}
use mathlib.Core.Option.{some}
use mathlib.Core.List.{List, [], ◌∷◌, Memᴰ}
use Prim.Native.Nat.{ℕ, suc}
use native.Mathlib.Omega.{arith}
use ai_hq.Prelude.Tests.{Bool-cases, Option-cases}
use ai_hq.Prelude.Rows.{find, row_count}
use ai_hq.Prelude.Rows.Members.{find-mem, find-none}

module _ {ℓ} {A : Type ℓ} where
  pub row_count_none :
      (p : A → Bool) (xs : List A) → ((x : A) → Memᴰ x xs → p x ≡ false) → row_count p xs ≡ 0
  unfolding row_count
  row_count_none p [] h = refl
  row_count_none p (x ∷ xs) h =
      rw (h x (Memᴰ.head refl)) (row_count_none p xs (λ y m. h y (Memᴰ.tail m)))

  -- An update that counts a row met one.
  pub row_count-mem :
      (p : A → Bool) (xs : List A) → row_count p xs ≡ 1 → (x : A) × Memᴰ x xs × (p x ≡ true)
  unfolding row_count
  row_count-mem p [] h = absurd (omega (arith, h))
  row_count-mem p (x ∷ xs) h = elim (Bool-cases (p x)) [
    | inl t ↦ (x, Memᴰ.head refl, t)
    | inr t ↦ let (y, m, u) = row_count-mem p xs (rw (row_count, t) at h) in (y, Memᴰ.tail m, u)
  ]

module _ {ℓ} {A : Type ℓ} where
  -- The only row that meets the condition is the row found.
  pub find-only :
      (p : A → Bool) (xs : List A) (x : A)
      → Memᴰ x xs
      → p x ≡ true
      → ((y : A) → Memᴰ y xs → p y ≡ true → y ≡ x)
      → find p xs ≡ some x
  find-only p xs x m t only = elim (Option-cases (find p xs)) [
    | inl n ↦ let no = find-none p xs x n m in cc (no, t)
    | inr (y, e) ↦ let (my, u) = find-mem p xs y e in e ∙ ap some (only y my u)
  ]

module _ {ℓ} {A : Type ℓ} where
  -- `Counted P xs n`: exactly `n` of the rows have the property `P`.
  pub data Counted (P : A → Type 0) : List A → ℕ → Type ℓ where
    done : Counted P [] 0
    hit : {x : A} {xs : List A} {n : ℕ} → P x → Counted P xs n → Counted P (x ∷ xs) (suc n)
    miss : {x : A} {xs : List A} {n : ℕ} → ¬ P x → Counted P xs n → Counted P (x ∷ xs) n

  -- A test that decides the property counts its rows.
  pub row_count-Counted :
      (P : A → Type 0) (p : A → Bool) (xs : List A)
      → ((x : A) → (p x ≡ true) ↔ P x)
      → Counted P xs (row_count p xs)
  unfolding row_count
  row_count-Counted P p [] decides = done
  row_count-Counted P p (x ∷ xs) decides = elim (Bool-cases (p x)) [
    | inl t ↦ rw t (hit ((decides x).0 t) (row_count-Counted P p xs decides))
    | inr t ↦
        rw t (miss (λ h. let u = (decides x).1 h in cc (t, u)) (row_count-Counted P p xs decides))
  ]

  -- There is one such number.
  pub Counted-unique :
      (P : A → Type 0) {xs : List A} {m n : ℕ} → Counted P xs m → Counted P xs n → m ≡ n
  Counted-unique P done done = refl
  Counted-unique P (hit h a) (hit k b) = ap suc (Counted-unique P a b)
  Counted-unique P (hit h a) (miss k b) = absurd (k h)
  Counted-unique P (miss h a) (hit k b) = absurd (h k)
  Counted-unique P (miss h a) (miss k b) = Counted-unique P a b
