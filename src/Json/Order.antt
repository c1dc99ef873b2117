-- ===== src/Json/Order.antt =====
-- Documents whose objects hold their keys in order, as a `BTreeMap` does.
pub mod Keeps
use programmable_redfish_pro.Prelude.{
  ℕ, zero, suc, ◌≡◌, refl, ap, none, some, true, false, Bool, ltb, ◌==◌, ◌||◌, ◌&&◌, ◌⊎◌, inl, inr,
  [], ◌∷◌, Text, text_eq, text_eq_iff, text_lt, arith, ◌≤◌,
}
use programmable_redfish_pro.Json.Defs.{
  Value, null, bool, num, str, arr, obj, Items, nil, cons, Fields, end, field, count, item,
  set_item, insert_item, remove_item, lookup, insert, remove, set_field,
}

pub text_lt_trans : (a b c : Text) → text_lt a b ≡ true → text_lt b c ≡ true → text_lt a c ≡ true
unfolding text_lt
text_lt_trans [] [] c p q = cc
text_lt_trans [] (y ∷ b) [] p q = cc
text_lt_trans [] (y ∷ b) (z ∷ c) p q = refl
text_lt_trans (x ∷ a) [] c p q = cc
text_lt_trans (x ∷ a) (y ∷ b) [] p q = cc
text_lt_trans (x ∷ a) (y ∷ b) (z ∷ c) p q = ground (arith, text_lt_trans a b c)

pub text_lt_irrefl : (a : Text) → text_lt a a ≡ false
unfolding text_lt
text_lt_irrefl [] = refl
text_lt_irrefl (x ∷ a) = ground (arith, text_lt_irrefl a)

pub text_lt_connex : (a b : Text) → text_eq a b ≡ false → text_lt a b ≡ false → text_lt b a ≡ true
unfolding text_lt text_eq
text_lt_connex [] [] p q = cc
text_lt_connex [] (y ∷ b) p q = cc
text_lt_connex (x ∷ a) [] p q = refl
text_lt_connex (x ∷ a) (y ∷ b) p q = ground (arith, text_lt_connex a b)

-- A smaller key is another key.
pub text_lt_ne : (a b : Text) → text_lt a b ≡ true → text_eq b a ≡ false
text_lt_ne a b h = ground (arith, text_eq_iff b a, text_lt_irrefl a)

-- Every key comes after `k`.
abbrev pub Above : Text → Fields → Type 0
Above k end = Unit
Above k (field j v fs) = (text_lt k j ≡ true) × Above k fs

abbrev pub HasOrderedKeys : Fields → Type 0
HasOrderedKeys end = Unit
HasOrderedKeys (field k v fs) = Above k fs × HasOrderedKeys fs

unfoldable mutual
  pub IsOrdered : Value → Type 0
  IsOrdered null = Unit
  IsOrdered (arr items) = AreOrdered items
  IsOrdered (obj map) = HasOrderedKeys map × HasOrderedFields map
  IsOrdered _ = Unit

  pub AreOrdered : Items → Type 0
  AreOrdered nil = Unit
  AreOrdered (cons v vs) = IsOrdered v × AreOrdered vs

  pub HasOrderedFields : Fields → Type 0
  HasOrderedFields end = Unit
  HasOrderedFields (field k v fs) = IsOrdered v × HasOrderedFields fs

pub Above-trans : (k j : Text) (fs : Fields) → text_lt k j ≡ true → Above j fs → Above k fs
Above-trans k j end h a = tt
Above-trans k j (field i v fs) h a = (text_lt_trans k j i h a.0, Above-trans k j fs h a.1)

pub lookup-Above : (k : Text) (fs : Fields) → Above k fs → lookup k fs ≡ none
unfolding lookup
lookup-Above k end a = refl
lookup-Above k (field j v fs) a = rw (text_lt_ne k j a.0) (lookup-Above k fs a.1)

Above-insert :
    (k j : Text) (v : Value) (fs : Fields)
    → text_lt k j ≡ true
    → Above k fs
    → Above k (insert j v fs)
unfolding insert
Above-insert k j v end h a = (h, tt)
Above-insert k j v (field i w fs) h a = ground (arith, Above-insert k j v fs h a.1)

Above-remove : (k j : Text) (fs : Fields) → Above k fs → Above k (remove j fs)
unfolding remove
Above-remove k j end a = tt
Above-remove k j (field i w fs) a = ground (arith, Above-remove k j fs a.1)

Above-set_field : (k j : Text) (v : Value) (fs : Fields) → Above k fs → Above k (set_field j v fs)
unfolding set_field
Above-set_field k j v end a = tt
Above-set_field k j v (field i w fs) a = ground (arith, Above-set_field k j v fs a.1)

pub insert-HasOrderedKeys :
    (k : Text) (v : Value) (fs : Fields) → HasOrderedKeys fs → HasOrderedKeys (insert k v fs)
unfolding insert
insert-HasOrderedKeys k v end h = (tt, tt)
insert-HasOrderedKeys k v (field j w fs) h = ground (
  arith,
  text_eq_iff j k,
  text_eq_iff k j,
  Above-trans k j fs,
  text_lt_connex k j,
  Above-insert j k v fs,
  insert-HasOrderedKeys k v fs h.1,
)

pub remove-HasOrderedKeys :
    (k : Text) (fs : Fields) → HasOrderedKeys fs → HasOrderedKeys (remove k fs)
unfolding remove
remove-HasOrderedKeys k end h = tt
remove-HasOrderedKeys k (field j w fs) h =
    ground (arith, Above-remove j k fs h.0, remove-HasOrderedKeys k fs h.1)

pub set_field-HasOrderedKeys :
    (k : Text) (v : Value) (fs : Fields) → HasOrderedKeys fs → HasOrderedKeys (set_field k v fs)
unfolding set_field
set_field-HasOrderedKeys k v end h = tt
set_field-HasOrderedKeys k v (field j w fs) h =
    ground (arith, Above-set_field j k v fs h.0, set_field-HasOrderedKeys k v fs h.1)
