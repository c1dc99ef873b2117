-- ===== src/Json/Order/Keeps.antt =====
-- The parts of an ordered document are ordered, and writing an ordered value keeps it so.
use mathlib.Core.Path.{subst}
use mathlib.Core.Option.{some-injective}
use programmable_redfish_pro.Prelude.{
  ℕ, zero, suc, ◌≡◌, refl, some, true, false, Bool-cases, inl, inr, Text, text_eq, text_eq_iff,
  text_lt, arith, sym, ap,
}
use programmable_redfish_pro.Json.Defs.{
  Value, Items, nil, cons, Fields, end, field, item, set_item, insert_item, remove_item, lookup,
  insert, remove, set_field,
}
use programmable_redfish_pro.Json.Laws.{remove_absent}
use programmable_redfish_pro.Json.Order.{
  IsOrdered, AreOrdered, HasOrderedFields, HasOrderedKeys, Above, lookup-Above, text_lt_trans,
  text_lt_irrefl, text_lt_ne,
}

pub item-IsOrdered :
    (vs : Items) (i : ℕ) {v : Value} → item vs i ≡ some v → AreOrdered vs → IsOrdered v
unfolding IsOrdered
item-IsOrdered nil i h a = cc
item-IsOrdered (cons w vs) zero h a = subst IsOrdered (some-injective _ _ h) a.0
item-IsOrdered (cons w vs) (suc i) h a = item-IsOrdered vs i h a.1

pub set_item-AreOrdered :
    (vs : Items) (i : ℕ) (w : Value) → IsOrdered w → AreOrdered vs → AreOrdered (set_item vs i w)
unfolding IsOrdered
set_item-AreOrdered nil i w h a = tt
set_item-AreOrdered (cons v vs) zero w h a = (h, a.1)
set_item-AreOrdered (cons v vs) (suc i) w h a = (a.0, set_item-AreOrdered vs i w h a.1)

pub insert_item-AreOrdered :
    (vs : Items) (i : ℕ) (w : Value) → IsOrdered w → AreOrdered vs → AreOrdered (insert_item vs i w)
unfolding IsOrdered
insert_item-AreOrdered vs zero w h a = (h, a)
insert_item-AreOrdered nil (suc i) w h a = tt
insert_item-AreOrdered (cons v vs) (suc i) w h a = (a.0, insert_item-AreOrdered vs i w h a.1)

pub remove_item-AreOrdered : (vs : Items) (i : ℕ) → AreOrdered vs → AreOrdered (remove_item vs i)
unfolding IsOrdered
remove_item-AreOrdered nil i a = tt
remove_item-AreOrdered (cons v vs) zero a = a.1
remove_item-AreOrdered (cons v vs) (suc i) a = (a.0, remove_item-AreOrdered vs i a.1)

pub lookup-IsOrdered :
    (k : Text) (fs : Fields) {v : Value} → lookup k fs ≡ some v → HasOrderedFields fs → IsOrdered v
unfolding IsOrdered lookup
lookup-IsOrdered k end h a = cc
lookup-IsOrdered k (field j w fs) h a = elim (Bool-cases (text_eq j k)) [
  | inl same ↦ subst IsOrdered (some-injective _ _ (rw same at h)) a.0
  | inr other ↦ lookup-IsOrdered k fs (rw other at h) a.1
]

pub insert-HasOrderedFields :
    (k : Text) (v : Value) (fs : Fields)
    → IsOrdered v
    → HasOrderedFields fs
    → HasOrderedFields (insert k v fs)
unfolding IsOrdered insert
insert-HasOrderedFields k v end h a = (h, tt)
insert-HasOrderedFields k v (field j w fs) h a = elim (Bool-cases (text_eq j k)) [
  | inl same ↦ rw same (h, a.1)
  | inr other ↦ rw other (elim (Bool-cases (text_lt k j)) [
    | inl before ↦ rw before (h, a)
    | inr after ↦ rw after (a.0, insert-HasOrderedFields k v fs h a.1)
  ])
]

pub remove-HasOrderedFields :
    (k : Text) (fs : Fields) → HasOrderedFields fs → HasOrderedFields (remove k fs)
unfolding IsOrdered remove
remove-HasOrderedFields k end a = tt
remove-HasOrderedFields k (field j w fs) a = elim (Bool-cases (text_eq j k)) [
  | inl same ↦ rw same (remove-HasOrderedFields k fs a.1)
  | inr other ↦ rw other (a.0, remove-HasOrderedFields k fs a.1)
]

pub set_field-HasOrderedFields :
    (k : Text) (v : Value) (fs : Fields)
    → IsOrdered v
    → HasOrderedFields fs
    → HasOrderedFields (set_field k v fs)
unfolding IsOrdered set_field
set_field-HasOrderedFields k v end h a = tt
set_field-HasOrderedFields k v (field j w fs) h a = elim (Bool-cases (text_eq j k)) [
  | inl same ↦ rw same (h, a.1)
  | inr other ↦ rw other (a.0, set_field-HasOrderedFields k v fs h a.1)
]

insert-Above : (k : Text) (v : Value) (fs : Fields) → Above k fs → insert k v fs ≡ field k v fs
unfolding insert
insert-Above k v end a = refl
insert-Above k v (field i x fs) a = rw (text_lt_ne k i a.0, a.0)

-- A key that is there comes after every key that is above none before it.
lt-of_Above :
    (j k : Text) (fs : Fields) {v : Value} → Above j fs → lookup k fs ≡ some v → text_lt j k ≡ true
unfolding lookup
lt-of_Above j k end a h = cc
lt-of_Above j k (field i x fs) a h = elim (Bool-cases (text_eq i k)) [
  | inl same ↦ rw (← (text_eq_iff i k).0 same) a.0
  | inr other ↦ lt-of_Above j k fs a.1 (rw other at h)
]

lt_asym : (j k : Text) → text_lt j k ≡ true → text_lt k j ≡ false
lt_asym j k h = ground (arith, text_lt_trans j k j, text_lt_irrefl j)

-- Taking a key out and putting it in again with another value is a write in place.
pub insert-remove :
    (k : Text) (w v : Value) (fs : Fields)
    → HasOrderedKeys fs
    → lookup k fs ≡ some v
    → insert k w (remove k fs) ≡ set_field k w fs
unfolding lookup remove set_field insert
insert-remove k w v end o h = cc
insert-remove k w v (field j x fs) o h = elim (Bool-cases (text_eq j k)) [
  | inl same ↦
      let e = (text_eq_iff j k).0 same in
      let a : Above k fs = subst (λ (t : Text). Above t fs) e o.0 in
      rw (same, remove_absent k fs (lookup-Above k fs a), insert-Above k w fs a)
        (ap (λ (t : Text). field t w fs) (sym e))
  | inr other ↦
      let before = lt-of_Above j k fs o.0 (rw other at h) in
      rw (other, other, lt_asym j k before)
        (ap (field j x) (insert-remove k w v fs o.1 (rw other at h)))
]
