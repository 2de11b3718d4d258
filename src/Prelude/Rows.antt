-- ===== src/Prelude/Rows.antt =====
-- A database table as the list of its rows, and the SQL statements that the services issue:
-- `SELECT ... WHERE`, `UPDATE ... WHERE` with its row count, `ORDER BY ... LIMIT 1`.
pub mod Members
pub mod Finds
pub mod Distinct
pub mod Counts
use Prim.Native.Nat.{ℕ, suc}
use mathlib.Core.Path.{◌≡◌, refl, sym, ap, ◌∙◌}
use mathlib.Core.Logic.{◌⊎◌, inl, inr}
use mathlib.Core.Bool.{Bool, true, false}
use mathlib.Core.Option.{Option, none, some}
use mathlib.Core.List.{List, [], ◌∷◌, ◌++◌, Memᴰ}
use native.Mathlib.Omega.{arith}
use ai_hq.Prelude.Tests.{if◌then◌else◌, Bool-cases}

module _ {ℓ} {A : Type ℓ} where
  -- The first row that satisfies the condition.
  unfoldable pub find : (A → Bool) → List A → Option A
  find p [] = none
  find p (x ∷ xs) = let rest = find p xs in if p x then some x else rest

  -- The rows that satisfy the condition.
  unfoldable pub where_rows : (A → Bool) → List A → List A
  where_rows p [] = []
  where_rows p (x ∷ xs) = let rest = where_rows p xs in if p x then x ∷ rest else rest

  -- `UPDATE ... SET f WHERE p`.
  unfoldable pub update_where : (A → Bool) → (A → A) → List A → List A
  update_where p f [] = []
  update_where p f (x ∷ xs) = (if p x then f x else x) ∷ update_where p f xs

  -- The `rowcount` of such an update.
  unfoldable pub row_count : (A → Bool) → List A → ℕ
  row_count p [] = 0
  row_count p (x ∷ xs) = let rest = row_count p xs in if p x then suc rest else rest

  -- `ORDER BY ... LIMIT 1`, where `before x y` says that x stands strictly before y.
  unfoldable pub first_by : (A → A → Bool) → List A → Option A
  first_by before [] = none
  first_by before (x ∷ xs) = elim (first_by before xs) [
    | none ↦ some x
    | some y ↦ if before y x then some y else some x
  ]

  insert_by : (A → A → Bool) → A → List A → List A
  insert_by before x [] = x ∷ []
  insert_by before x (y ∷ ys) =
      let rest = insert_by before x ys in if before y x then y ∷ rest else x ∷ y ∷ ys

  -- `ORDER BY ...`, by insertion.
  unfoldable pub order_by : (A → A → Bool) → List A → List A
  unfolding insert_by
  order_by before [] = []
  order_by before (x ∷ xs) = insert_by before x (order_by before xs)
