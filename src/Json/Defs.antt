-- ===== src/Json/Defs.antt =====
-- The documents themselves, and the operations of `Vec` and `Map` that the program calls.
use programmable_redfish_pro.Prelude.{
  ℕ, zero, suc, Bool, true, false, ◌&&◌, Option, none, some, Text, text_eq, text_lt, ◌==◌,
  if◌then◌else◌,
}

mutual
  pub data Value : Type 0 where
    null : Value
    bool : Bool → Value
    num : ℕ → Value
    str : Text → Value
    arr : Items → Value
    obj : Fields → Value

  pub data Items : Type 0 where
    nil : Items
    cons : Value → Items → Items

  pub data Fields : Type 0 where
    end : Fields
    field : Text → Value → Fields → Fields

-- `Vec`: `len`, `get`, a write through `get_mut`, `insert` and `remove`.
abbrev pub count : Items → ℕ
count nil = 0
count (cons v vs) = suc (count vs)

abbrev pub item : Items → ℕ → Option Value
item nil i = none
item (cons v vs) zero = some v
item (cons v vs) (suc i) = item vs i

abbrev pub set_item : Items → ℕ → Value → Items
set_item nil i w = nil
set_item (cons v vs) zero w = cons w vs
set_item (cons v vs) (suc i) w = cons v (set_item vs i w)

abbrev pub insert_item : Items → ℕ → Value → Items
insert_item vs zero w = cons w vs
insert_item nil (suc i) w = nil
insert_item (cons v vs) (suc i) w = cons v (insert_item vs i w)

abbrev pub remove_item : Items → ℕ → Items
remove_item nil i = nil
remove_item (cons v vs) zero = vs
remove_item (cons v vs) (suc i) = cons v (remove_item vs i)

-- `Map`: `get`, `get_mut`, `insert` and `remove`.
unfoldable pub lookup : Text → Fields → Option Value
lookup k end = none
lookup k (field j v fs) = if text_eq j k then some v else lookup k fs

-- A write through `get_mut`, which leaves the keys as they are.
unfoldable pub set_field : Text → Value → Fields → Fields
set_field k v end = end
set_field k v (field j w fs) = if text_eq j k then field j v fs else field j w (set_field k v fs)

unfoldable pub insert : Text → Value → Fields → Fields
insert k v end = field k v end
insert k v (field j w fs) =
    if text_eq j k
    then field k v fs
    else if text_lt k j
    then field k v (field j w fs)
    else field j w (insert k v fs)

unfoldable pub remove : Text → Fields → Fields
remove k end = end
remove k (field j v fs) = let rest = remove k fs in if text_eq j k then rest else field j v rest

-- `==` on documents.
unfoldable mutual
  pub value_eq : Value → Value → Bool
  value_eq null null = true
  value_eq (bool true) (bool c) = c
  value_eq (bool false) (bool true) = false
  value_eq (bool false) (bool false) = true
  value_eq (num m) (num n) = m == n
  value_eq (str s) (str t) = text_eq s t
  value_eq (arr vs) (arr ws) = items_eq vs ws
  value_eq (obj fs) (obj gs) = fields_eq fs gs
  value_eq _ _ = false

  pub items_eq : Items → Items → Bool
  items_eq nil nil = true
  items_eq (cons v vs) (cons w ws) = value_eq v w && items_eq vs ws
  items_eq _ _ = false

  pub fields_eq : Fields → Fields → Bool
  fields_eq end end = true
  fields_eq (field k v fs) (field j w gs) = text_eq k j && value_eq v w && fields_eq fs gs
  fields_eq _ _ = false
