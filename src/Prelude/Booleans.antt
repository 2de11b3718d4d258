-- ===== src/Prelude/Booleans.antt =====
-- Laws of the Boolean connectives.
use mathlib.Core.Path.{◌≡◌, refl}
use mathlib.Core.Bool.{Bool, true, false, not, ◌&&◌, ◌||◌}

pub or_true : (a : Bool) {b : Bool} → b ≡ true → (a || b) ≡ true
or_true true h = refl
or_true false h = h

pub or_false : (b : Bool) → (b || false) ≡ b
or_false true = refl
or_false false = refl

pub or_assoc : (a b c : Bool) → ((a || b) || c) ≡ (a || (b || c))
or_assoc true b c = refl
or_assoc false b c = refl

pub and_false : (b : Bool) → (b && false) ≡ false
and_false true = refl
and_false false = refl

pub or_and : (a b g : Bool) → ((a && g) || (b && g)) ≡ ((a || b) && g)
or_and true b true = refl
or_and true b false = and_false b
or_and false b g = refl

pub or_both_false : (a b : Bool) → (a || b) ≡ false → (a ≡ false) × (b ≡ false)
or_both_false true b h = cc
or_both_false false b h = (refl, h)

pub and_both : (a b : Bool) → (a && b) ≡ true → (a ≡ true) × (b ≡ true)
and_both true b h = (refl, h)
and_both false b h = cc

pub false_of_not : (b : Bool) → not b ≡ true → b ≡ false
false_of_not true h = cc
false_of_not false h = refl
