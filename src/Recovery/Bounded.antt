-- ===== src/Recovery/Bounded.antt =====
-- recovery/service.py: cutting a value to a size that may be stored.
-- Python's `str` on a value that is no JSON value does not occur: what is stored is JSON.
use ai_hq.Prelude.{ℕ, zero, suc, String, if◌then◌else◌, str_eq}
use Prim.Native.String.{[], ◌∷◌}
use ai_hq.Json.{Json, Items, Fields, null, bool, num, text, arr, obj, nil, cons, end, field}

-- `value[:n]` on a text
unfoldable pub cut : ℕ → String → String
cut zero s = []
cut (suc n) [] = []
cut (suc n) (c ∷ s) = c ∷ cut n s

-- `len(value)` of a text
unfoldable pub text_length : String → ℕ
text_length [] = 0
text_length (c ∷ s) = suc (text_length s)

-- `bounded[key] = value`, which keeps the place of a key that is there.
unfoldable pub set_field : String → Json → Fields → Fields
set_field k v end = field k v end
set_field k v (field j w fs) =
    let rest = set_field k v fs in if str_eq j k then field j v fs else field j w rest

-- `_bounded_value`; the first argument is 4 less the depth, and `bounded_fields` carries how many
-- more items the loop takes and what it has built.
unfoldable mutual
  unfolding cut set_field

  pub bounded_value : ℕ → Json → Json
  bounded_value zero v = text "[truncated]"
  bounded_value (suc d) null = null
  bounded_value (suc d) (bool b) = bool b
  bounded_value (suc d) (num n) = num n
  bounded_value (suc d) (text s) = text (cut 1024 s)
  bounded_value (suc d) (arr xs) = arr (bounded_items d 20 xs)
  bounded_value (suc d) (obj fs) = obj (bounded_fields d 32 fs end)

  pub bounded_items : ℕ → ℕ → Items → Items
  bounded_items d zero xs = nil
  bounded_items d (suc n) nil = nil
  bounded_items d (suc n) (cons x xs) = cons (bounded_value d x) (bounded_items d n xs)

  pub bounded_fields : ℕ → ℕ → Fields → Fields → Fields
  bounded_fields d zero fs done = done
  bounded_fields d (suc n) end done = done
  bounded_fields d (suc n) (field k v fs) done =
      bounded_fields d n fs (set_field (cut 128 k) (bounded_value d v) done)

-- `_bounded_mapping`, on a mapping; `None` gives the empty one.
unfoldable pub bounded_mapping : Fields → Fields
unfolding bounded_fields
bounded_mapping fs = bounded_fields 3 32 fs end
