-- ===== src/Json/Equality.antt =====
-- `value_eq` decides equality.
use programmable_redfish_pro.Prelude.{
  ◌≡◌, refl, ◌↔◌, Bool, true, false, ◌&&◌, text_eq, text_eq_iff, arith, Text,
}
use programmable_redfish_pro.Json.Defs.{
  Value, null, bool, num, str, arr, obj, Items, nil, cons, Fields, end, field, value_eq, items_eq,
  fields_eq,
}

all_three : (a b c : Bool) → (a && b && c) ≡ true → (a ≡ true) × ((b ≡ true) × (c ≡ true))
all_three a b c h = ground arith

same_field :
    {k j : Text} {v w : Value} {fs gs : Fields}
    → k ≡ j
    → v ≡ w
    → fs ≡ gs
    → field k v fs ≡ field j w gs
same_field p q r = cc

mutual
  unfolding value_eq

  value_eq-eq : (v w : Value) → value_eq v w ≡ true → v ≡ w
  value_eq-eq null null h = refl
  value_eq-eq (bool true) (bool c) h = ground arith
  value_eq-eq (bool false) (bool c) h = ground arith
  value_eq-eq (num m) (num n) h = ground arith
  value_eq-eq (str s) (str t) h = ground (arith, text_eq_iff s t)
  value_eq-eq (arr vs) (arr ws) h = ground (arith, items_eq-eq vs ws)
  value_eq-eq (obj fs) (obj gs) h = ground (arith, fields_eq-eq fs gs)
  value_eq-eq _ _ h = cc

  items_eq-eq : (vs ws : Items) → items_eq vs ws ≡ true → vs ≡ ws
  items_eq-eq nil nil h = refl
  items_eq-eq (cons v vs) (cons w ws) h = ground (arith, value_eq-eq v w, items_eq-eq vs ws)
  items_eq-eq _ _ h = cc

  fields_eq-eq : (fs gs : Fields) → fields_eq fs gs ≡ true → fs ≡ gs
  fields_eq-eq end end h = refl
  fields_eq-eq (field k v fs) (field j w gs) h =
      let (first, rest) = all_three (text_eq k j) (value_eq v w) (fields_eq fs gs) h in
      same_field ((text_eq_iff k j).0 first) (value_eq-eq v w rest.0) (fields_eq-eq fs gs rest.1)
  fields_eq-eq _ _ h = cc

mutual
  unfolding value_eq

  value_eq_refl : (v : Value) → value_eq v v ≡ true
  value_eq_refl null = refl
  value_eq_refl (bool true) = refl
  value_eq_refl (bool false) = refl
  value_eq_refl (num n) = ground arith
  value_eq_refl (str s) = (text_eq_iff s s).1 refl
  value_eq_refl (arr vs) = items_eq_refl vs
  value_eq_refl (obj fs) = fields_eq_refl fs

  items_eq_refl : (vs : Items) → items_eq vs vs ≡ true
  items_eq_refl nil = refl
  items_eq_refl (cons v vs) = ground (arith, value_eq_refl v, items_eq_refl vs)

  fields_eq_refl : (fs : Fields) → fields_eq fs fs ≡ true
  fields_eq_refl end = refl
  fields_eq_refl (field k v fs) =
      ground (arith, text_eq_iff k k, value_eq_refl v, fields_eq_refl fs)

pub value_eq_iff : (v w : Value) → (value_eq v w ≡ true) ↔ (v ≡ w)
value_eq_iff v w = (value_eq-eq v w, λ e. rw (← e) (value_eq_refl v))
