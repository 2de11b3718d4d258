-- ===== src/Json.antt =====
-- JSON values, as the JSON columns of the tables and the parameters of a tool request hold them.
-- A dict is a list of its items, and `==` on dicts ignores their order. Negative and fractional
-- numbers do not occur in what the services build.
use ai_hq.Prelude.{
  ℕ, String, Option, none, some, Bool, true, false, ◌&&◌, ◌==◌, if◌then◌else◌, str_eq, suc, List,
  [], ◌∷◌, not,
}

mutual
  pub data Json : Type 0 where
    null : Json
    bool : Bool → Json
    num : ℕ → Json
    text : String → Json
    arr : Items → Json
    obj : Fields → Json

  pub data Items : Type 0 where
    nil : Items
    cons : Json → Items → Items

  pub data Fields : Type 0 where
    end : Fields
    field : String → Json → Fields → Fields

-- `d.get(key)`
unfoldable pub get_field : String → Fields → Option Json
get_field k end = none
get_field k (field j v fs) = let rest = get_field k fs in if str_eq j k then some v else rest

unfoldable pub count_fields : Fields → ℕ
count_fields end = 0
count_fields (field k v fs) = suc (count_fields fs)

-- `d.pop(key, ...)`, what is left of the dict.
unfoldable pub without_field : String → Fields → Fields
without_field k end = end
without_field k (field j v fs) =
    let rest = without_field k fs in if str_eq j k then rest else field j v rest

-- The keys of a dict, in their order.
unfoldable pub keys : Fields → List String
keys end = []
keys (field k v fs) = k ∷ keys fs

-- Python counts `True` as 1.
abbrev from_bool : Bool → ℕ
from_bool true = 1
from_bool false = 0

abbrev same_bool : Bool → Bool → Bool
same_bool true b = b
same_bool false b = not b

-- `==`; a dict equals another of the same size whose items are its own.
unfoldable mutual
  unfolding get_field count_fields

  pub json_eq : Json → Json → Bool
  json_eq null w = elim w [ null ↦ true | _ ↦ false ]
  json_eq (bool b) w = elim w [ bool c ↦ same_bool b c | num n ↦ from_bool b == n | _ ↦ false ]
  json_eq (num n) w = elim w [ bool c ↦ n == from_bool c | num m ↦ n == m | _ ↦ false ]
  json_eq (text s) w = elim w [ text t ↦ str_eq s t | _ ↦ false ]
  json_eq (arr xs) w = elim w [ arr ys ↦ items_eq xs ys | _ ↦ false ]
  json_eq (obj fs) w = elim w [
    | obj gs ↦ (count_fields fs == count_fields gs) && fields_in fs gs
    | _ ↦ false
  ]

  pub items_eq : Items → Items → Bool
  items_eq nil ys = elim ys [ nil ↦ true | _ ↦ false ]
  items_eq (cons x xs) ys = elim ys [ nil ↦ false | cons y ys' ↦ json_eq x y && items_eq xs ys' ]

  pub fields_in : Fields → Fields → Bool
  fields_in end gs = true
  fields_in (field k v fs) gs =
      (elim (get_field k gs) [ none ↦ false | some w ↦ json_eq v w ]) && fields_in fs gs

-- `bool(value)`
unfoldable pub truthy : Json → Bool
truthy null = false
truthy (bool b) = b
truthy (num n) = not (n == 0)
truthy (text s) = not (str_eq s "")
truthy (arr nil) = false
truthy (arr (cons x xs)) = true
truthy (obj end) = false
truthy (obj (field k v fs)) = true
