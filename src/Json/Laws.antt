-- ===== src/Json/Laws.antt =====
-- Reading back what was written into an array or an object.
use programmable_redfish_pro.Prelude.{
  ℕ, zero, suc, ◌+◌, ◌≤◌, ◌<◌, ◌≡◌, refl, none, some, Text, text_eq, text_eq_iff, arith,
  if◌then◌else◌,
}
use programmable_redfish_pro.Json.Defs.{
  Value, Items, nil, cons, Fields, end, field, count, item, set_item, insert_item, remove_item,
  lookup, insert, remove, set_field,
}

pub count-set_item : (vs : Items) (i : ℕ) (w : Value) → count (set_item vs i w) ≡ count vs
count-set_item nil i w = refl
count-set_item (cons v vs) zero w = refl
count-set_item (cons v vs) (suc i) w = rw (count-set_item vs i w)

pub item-lt : (vs : Items) (i : ℕ) {v : Value} → item vs i ≡ some v → i < count vs
item-lt nil i h = cc
item-lt (cons w vs) zero h = omega arith
item-lt (cons w vs) (suc i) h = omega (arith, item-lt vs i h)

pub item-of_lt : (vs : Items) (i : ℕ) → i < count vs → (v : Value) × (item vs i ≡ some v)
item-of_lt nil i h = elim h [ ]
item-of_lt (cons w vs) zero h = (w, refl)
item-of_lt (cons w vs) (suc i) h = item-of_lt vs i (omega arith)

pub item-set_item :
    (vs : Items) (i : ℕ) (w : Value) {v : Value}
    → item vs i ≡ some v
    → item (set_item vs i w) i ≡ some w
item-set_item nil i w h = cc
item-set_item (cons v vs) zero w h = refl
item-set_item (cons v vs) (suc i) w h = item-set_item vs i w h

pub set_item_self : (vs : Items) (i : ℕ) {v : Value} → item vs i ≡ some v → set_item vs i v ≡ vs
set_item_self nil i h = refl
set_item_self (cons v vs) zero h = cc
set_item_self (cons v vs) (suc i) h = rw (set_item_self vs i h)

pub set_item_twice :
    (vs : Items) (i : ℕ) (v w : Value) → set_item (set_item vs i v) i w ≡ set_item vs i w
set_item_twice nil i v w = refl
set_item_twice (cons x vs) zero v w = refl
set_item_twice (cons x vs) (suc i) v w = rw (set_item_twice vs i v w)

pub item-insert_item :
    (vs : Items) (i : ℕ) (w : Value) → i ≤ count vs → item (insert_item vs i w) i ≡ some w
item-insert_item vs zero w h = refl
item-insert_item nil (suc i) w h = elim h [ ]
item-insert_item (cons v vs) (suc i) w h = item-insert_item vs i w (omega arith)

pub count-insert_item :
    (vs : Items) (i : ℕ) (w : Value) → i ≤ count vs → count (insert_item vs i w) ≡ count vs + 1
count-insert_item vs zero w h = omega arith
count-insert_item nil (suc i) w h = elim h [ ]
count-insert_item (cons v vs) (suc i) w h = omega (arith, count-insert_item vs i w (omega arith))

pub remove_item-insert_item :
    (vs : Items) (i : ℕ) (w : Value) → i ≤ count vs → remove_item (insert_item vs i w) i ≡ vs
remove_item-insert_item vs zero w h = refl
remove_item-insert_item nil (suc i) w h = elim h [ ]
remove_item-insert_item (cons v vs) (suc i) w h = rw (remove_item-insert_item vs i w (omega arith))

pub insert_item-remove_item :
    (vs : Items) (i : ℕ) (w : Value) {v : Value}
    → item vs i ≡ some v
    → insert_item (remove_item vs i) i w ≡ set_item vs i w
insert_item-remove_item nil i w h = cc
insert_item-remove_item (cons v vs) zero w h = refl
insert_item-remove_item (cons v vs) (suc i) w h = rw (insert_item-remove_item vs i w h)

pub count-remove_item :
    (vs : Items) (i : ℕ) {v : Value}
    → item vs i ≡ some v
    → suc (count (remove_item vs i)) ≡ count vs
count-remove_item nil i h = cc
count-remove_item (cons v vs) zero h = refl
count-remove_item (cons v vs) (suc i) h = rw (count-remove_item vs i h)

pub lookup-insert :
    (k j : Text) (v : Value) (fs : Fields)
    → lookup j (insert k v fs) ≡ (if text_eq k j then some v else lookup j fs)
unfolding lookup insert
lookup-insert k j v end = refl
lookup-insert k j v (field i w fs) =
    ground (arith, text_eq_iff i k, text_eq_iff k j, text_eq_iff i j, lookup-insert k j v fs)

pub lookup-remove :
    (k j : Text) (fs : Fields)
    → lookup j (remove k fs) ≡ (if text_eq k j then none else lookup j fs)
unfolding lookup remove
lookup-remove k j end = ground arith
lookup-remove k j (field i w fs) =
    ground (arith, text_eq_iff i k, text_eq_iff k j, text_eq_iff i j, lookup-remove k j fs)

pub lookup-set_field :
    (k j : Text) (v w : Value) (fs : Fields)
    → lookup k fs ≡ some w
    → lookup j (set_field k v fs) ≡ (if text_eq k j then some v else lookup j fs)
unfolding lookup set_field
lookup-set_field k j v w end h = cc
lookup-set_field k j v w (field i x fs) h =
    ground (arith, text_eq_iff i k, text_eq_iff k j, text_eq_iff i j, lookup-set_field k j v w fs)

pub set_field_self :
    (k : Text) (v : Value) (fs : Fields) → lookup k fs ≡ some v → set_field k v fs ≡ fs
unfolding lookup set_field
set_field_self k v end h = refl
set_field_self k v (field i x fs) h = ground (arith, set_field_self k v fs)

pub set_field_twice :
    (k : Text) (v w : Value) (fs : Fields) → set_field k w (set_field k v fs) ≡ set_field k w fs
unfolding set_field
set_field_twice k v w end = refl
set_field_twice k v w (field i x fs) = ground (arith, set_field_twice k v w fs)

-- Removing a key that is not there changes nothing.
pub remove_absent : (k : Text) (fs : Fields) → lookup k fs ≡ none → remove k fs ≡ fs
unfolding lookup remove
remove_absent k end h = refl
remove_absent k (field i w fs) h = ground (arith, remove_absent k fs)

pub remove-insert :
    (k : Text) (v : Value) (fs : Fields) → lookup k fs ≡ none → remove k (insert k v fs) ≡ fs
unfolding lookup remove insert
remove-insert k v end h = ground (arith, text_eq_iff k k)
remove-insert k v (field i w fs) h =
    ground (arith, text_eq_iff k k, text_eq_iff i k, remove_absent k fs, remove-insert k v fs)

pub ruleset map_laws = (lookup-insert, lookup-remove)
