-- ===== src/Prelude/Checks.antt =====
-- Checks that read and may raise: what stands before the writes of a method.
use mathlib.Core.Path.{◌≡◌, refl}
use mathlib.Core.Bool.{Bool, true, false}
use mathlib.Core.Option.{Option, none, some}
use Prim.Native.String.{String}
use ai_hq.Prelude.Result.{Result, Error, ok, err, value_error}

module _ {ℓ} {A B : Type ℓ} where
  infixl 10 ◌>>=◌
  abbrev pub ◌>>=◌ : Result A → (A → Result B) → Result B
  ok a >>= f = f a
  err e >>= f = err e

module _ {ℓ} {A : Type ℓ} where
  -- `if not test: raise ValueError(message)`, and what comes after it.
  abbrev pub check : Bool → String → Result A → Result A
  check true message rest = rest
  check false message rest = err (value_error message)

  -- `if x is None: raise e`
  abbrev pub found : Option A → Error → Result A
  found (some a) e = ok a
  found none e = err e

module _ {ℓ} {A : Type ℓ} where
  -- A check that passed.
  pub check_inv :
      (b : Bool) (message : String) (r : Result A) {a : A}
      → check b message r ≡ ok a
      → (b ≡ true) × (r ≡ ok a)
  check_inv true message r h = (refl, h)
  check_inv false message r h = cc

module _ {ℓ} {A B : Type ℓ} where
  -- A result that was used.
  pub bind_inv :
      (r : Result A) (f : A → Result B) {b : B}
      → (r >>= f) ≡ ok b
      → (a : A) × (r ≡ ok a) × (f a ≡ ok b)
  bind_inv (ok a) f h = (a, refl, h)
  bind_inv (err e) f h = cc
