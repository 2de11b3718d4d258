-- ===== src/Recovery/Sizes.antt =====
-- recovery/service.py: how large a value may be after it was cut for storage.
use ai_hq.Prelude.{
  ℕ, zero, suc, ◌+◌, ◌≤◌, leb, String, Bool, true, false, ◌&&◌, ◌≡◌, refl, arith, Bool-cases, inl,
  inr, str_eq,
}
use Prim.Native.String.{[], ◌∷◌}
use ai_hq.Json.{
  Json, Items, Fields, null, bool, num, text, arr, obj, nil, cons, end, field, count_fields,
}
use ai_hq.Recovery.Bounded.{
  cut, text_length, set_field, bounded_value, bounded_items, bounded_fields, bounded_mapping,
}

unfoldable pub count_items : Items → ℕ
count_items nil = 0
count_items (cons x xs) = suc (count_items xs)

-- Texts of 1024 characters, keys of 128, 20 items of an array and 32 of a dict are the most; `d` is
-- how deep arrays and dicts may still nest.
unfoldable mutual
  unfolding text_length count_items count_fields

  pub fits : ℕ → Json → Bool
  fits d null = true
  fits d (bool b) = true
  fits d (num n) = true
  fits d (text s) = leb (text_length s) 1024
  fits zero (arr xs) = false
  fits (suc d) (arr xs) = leb (count_items xs) 20 && items_fit d xs
  fits zero (obj fs) = false
  fits (suc d) (obj fs) = leb (count_fields fs) 32 && fields_fit d fs

  pub items_fit : ℕ → Items → Bool
  items_fit d nil = true
  items_fit d (cons x xs) = fits d x && items_fit d xs

  pub fields_fit : ℕ → Fields → Bool
  fields_fit d end = true
  fields_fit d (field k v fs) = leb (text_length k) 128 && fits d v && fields_fit d fs

leb_le : {a b : ℕ} → a ≤ b → leb a b ≡ true
leb_le h = ground (arith, h)

cut_length : (n : ℕ) (s : String) → text_length (cut n s) ≤ n
unfolding cut text_length
cut_length zero s = omega arith
cut_length (suc n) [] = omega arith
cut_length (suc n) (c ∷ s) = let h = cut_length n s in omega (arith, h)

set_field_count :
    (k : String) (v : Json) (fs : Fields) → count_fields (set_field k v fs) ≤ count_fields fs + 1
unfolding set_field count_fields
set_field_count k v end = omega arith
set_field_count k v (field j w fs) = elim (Bool-cases (str_eq j k)) [
  | inl t ↦ rw t (omega arith)
  | inr t ↦ let h = set_field_count k v fs in rw t (omega (arith, h))
]

set_field-fits :
    (d : ℕ) (k : String) (v : Json) (fs : Fields)
    → leb (text_length k) 128 ≡ true
    → fits d v ≡ true
    → fields_fit d fs ≡ true
    → fields_fit d (set_field k v fs) ≡ true
unfolding set_field fields_fit
set_field-fits d k v end hk hv h = ground (arith, hk, hv)
set_field-fits d k v (field j w fs) hk hv h = elim (Bool-cases (str_eq j k)) [
  | inl t ↦ rw t (ground (arith, hv, h))
  | inr t ↦ rw t (let r = set_field-fits d k v fs hk hv in ground (arith, h, r))
]

module _ (d : ℕ) (value_fits : (v : Json) → fits d (bounded_value d v) ≡ true) where
  bounded_items_fit :
      (n : ℕ) (xs : Items)
      → (count_items (bounded_items d n xs) ≤ n) × (items_fit d (bounded_items d n xs) ≡ true)
  unfolding bounded_items count_items items_fit
  bounded_items_fit zero xs = (omega arith, refl)
  bounded_items_fit (suc n) nil = (omega arith, refl)
  bounded_items_fit (suc n) (cons x xs) =
      let (c, h) = bounded_items_fit n xs in
      let hv = value_fits x in (omega (arith, c), ground (arith, h, hv))

  bounded_fields_fit :
      (n : ℕ) (fs done : Fields)
      → fields_fit d done ≡ true
      → (count_fields (bounded_fields d n fs done) ≤ n + count_fields done)
        × (fields_fit d (bounded_fields d n fs done) ≡ true)
  unfolding bounded_fields
  bounded_fields_fit zero fs done h = (omega arith, h)
  bounded_fields_fit (suc n) end done h = (omega arith, h)
  bounded_fields_fit (suc n) (field k v fs) done h =
      let key_fits : leb (text_length (cut 128 k)) 128 ≡ true =
        let l = cut_length 128 k in ground (arith, l) in
      let count = set_field_count (cut 128 k) (bounded_value d v) done in
      let (c, g) =
        bounded_fields_fit n fs (set_field (cut 128 k) (bounded_value d v) done)
          (set_field-fits d (cut 128 k) (bounded_value d v) done key_fits (value_fits v) h) in
      (omega (arith, c, count), g)

bounded_value-fits : (d : ℕ) (v : Json) → fits d (bounded_value d v) ≡ true
unfolding bounded_value fits
bounded_value-fits zero v = refl
bounded_value-fits (suc d) null = refl
bounded_value-fits (suc d) (bool b) = refl
bounded_value-fits (suc d) (num n) = refl
bounded_value-fits (suc d) (text s) = let l = cut_length 1024 s in ground (arith, l)
bounded_value-fits (suc d) (arr xs) =
    let (c, h) = bounded_items_fit d (bounded_value-fits d) 20 xs in rw (leb_le c, h) refl
bounded_value-fits (suc d) (obj fs) =
    let (c, h) = bounded_fields_fit d (bounded_value-fits d) 32 fs end refl in rw (leb_le c, h) refl

-- A mapping that was cut for storage has at most 32 items, nests at most three levels deeper, and
-- holds no text of more than 1024 characters, no key of more than 128, no array of more than 20
-- items and no dict of more than 32.
pub bounded_mapping_fits :
    (fs : Fields)
    → (count_fields (bounded_mapping fs) ≤ 32) × (fields_fit 3 (bounded_mapping fs) ≡ true)
unfolding bounded_mapping fields_fit
bounded_mapping_fits fs = bounded_fields_fit 3 (bounded_value-fits 3) 32 fs end refl
