-- ===== src/JsonPatch/Edit/Under.antt =====
-- Adding and removing one member of an array or an object.
use mathlib.Core.Path.{subst}
use programmable_redfish_pro.Prelude.{
  ℕ, ◌≤◌, ◌≡◌, refl, ap, ◌∙◌, Bool, true, false, Bool-cases, none, some, [], ◌∷◌, Text, lit,
  text_eq, text_eq_refl, ltb, leb, ok, ok_or, >>=-eq-ok, ok_or-eq-ok, ok_injective, err_ne_ok,
  arith, inl, inr,
}
use programmable_redfish_pro.Json.{
  Value, arr, obj, Items, Fields, count, item, insert_item, remove_item, set_item, set_field,
  lookup, item-insert_item, count-insert_item, remove_item-insert_item, insert_item-remove_item,
  lookup-insert, remove-insert, count-remove_item, IsOrdered, HasOrderedKeys, item-lt,
}
use programmable_redfish_pro.Json.Order.Keeps.{insert-remove}
use programmable_redfish_pro.JsonPatch.Pointer.{array_index}
use programmable_redfish_pro.JsonPatch.Locate.{resolve, resolve_mut, Slot}
use programmable_redfish_pro.JsonPatch.Edit.{add_under, remove_under}

-- Only `-` is read by the length of the array.
pub array_index-any :
    (token : Text) (m n : ℕ) (a b : Bool)
    → text_eq token (lit "-") ≡ false
    → array_index token m a ≡ array_index token n b
unfolding array_index
array_index-any token m n a b h = rw h refl

pub array_index-named :
    (token : Text) (n : ℕ) {i : ℕ}
    → array_index token n false ≡ ok i
    → text_eq token (lit "-") ≡ false
unfolding array_index
array_index-named token n h = elim (Bool-cases (text_eq token (lit "-"))) [
  | inl last ↦ absurd (err_ne_ok (rw last at h))
  | inr named ↦ named
]

ordered_keys : (map : Fields) → IsOrdered (obj map) → HasOrderedKeys map
unfolding IsOrdered
ordered_keys map h = h.0

-- A member that is to be put where no object member stands yet.
abbrev pub IsFreshIn : Value → Text → Type 0
IsFreshIn (obj map) last = lookup last map ≡ none
IsFreshIn _ last = Unit

pub record ArrayAdd (items : Items) (last : Text) (value after : Value) : Type 0 where
  pub index : ℕ
  pub read : array_index last (count items) true ≡ ok index
  pub fits : index ≤ count items
  pub same : arr (insert_item items index value) ≡ after

pub array_add :
    (items : Items) (last : Text) (value : Value) {after : Value}
    → add_under (arr items) last value ≡ ok after
    → ArrayAdd items last value after
unfolding add_under
array_add items last value h =
    let (i, read, h') = >>=-eq-ok (array_index last (count items) true) _ h in
    elim (Bool-cases (ltb (count items) i)) [
      | inl past ↦ absurd (err_ne_ok (rw past at h'))
      | inr fits ↦ record {
        index = i;
        read = read;
        fits = ground arith;
        same = ok_injective (rw fits at h');
      }
    ]

-- What was added to an array or an object is found under its token.
pub resolve-add_under :
    (parent : Value) (last : Text) (value : Value) {after : Value}
    → text_eq last (lit "-") ≡ false
    → add_under parent last value ≡ ok after
    → resolve after (last ∷ []) ≡ some value
unfolding resolve add_under
resolve-add_under (arr items) last value named h =
    let t = array_add items last value h in
    let len = count (insert_item items t.index value) in
    rw
      (
        ← t.same,
        array_index-any last len (count items) false true named,
        t.read,
        item-insert_item items t.index value t.fits,
      )
      refl
resolve-add_under (obj map) last value named h =
    subst (λ (v : Value). resolve v (last ∷ []) ≡ some value) (ok_injective h)
      (simp (lookup-insert, text_eq_refl))
resolve-add_under _ last value named h = cc

-- Removing what was added gives it back, and the parent as it was.
pub remove_under-add_under :
    (parent : Value) (last : Text) (value : Value) {after : Value}
    → text_eq last (lit "-") ≡ false
    → IsFreshIn parent last
    → add_under parent last value ≡ ok after
    → remove_under after last ≡ ok (value, parent)
unfolding remove_under add_under
remove_under-add_under (arr items) last value named fresh h =
    let t = array_add items last value h in
    let len = count (insert_item items t.index value) in
    let inside : leb len t.index ≡ false =
      ground (arith, count-insert_item items t.index value t.fits, t.fits) in
    rw
      (
        ← t.same,
        array_index-any last len (count items) false true named,
        t.read,
        inside,
        item-insert_item items t.index value t.fits,
        remove_item-insert_item items t.index value t.fits,
      )
      refl
remove_under-add_under (obj map) last value named fresh h =
    subst (λ (v : Value). remove_under v last ≡ ok (value, obj map)) (ok_injective h)
      (simp (lookup-insert, text_eq_refl, remove-insert last value map fresh))
remove_under-add_under _ last value named fresh h = cc

pub record ArrayTake (items : Items) (last : Text) (taken after : Value) : Type 0 where
  pub index : ℕ
  pub read : array_index last (count items) false ≡ ok index
  pub found : item items index ≡ some taken
  pub same : arr (remove_item items index) ≡ after

pub array_take :
    (items : Items) (last : Text) {taken after : Value}
    → remove_under (arr items) last ≡ ok (taken, after)
    → ArrayTake items last taken after
unfolding remove_under
array_take items last {taken} {after} h =
    let (i, read, h') = >>=-eq-ok (array_index last (count items) false) _ h in
    elim (Bool-cases (leb (count items) i)) [
      | inl past ↦ absurd (err_ne_ok (rw past at h'))
      | inr inside ↦
          let (v, e, h'') = >>=-eq-ok (ok_or _ (item items i)) _ (rw inside at h') in
          record {
            index = i;
            read = read;
            found =
                ok_or-eq-ok _ (item items i)
                  (e ∙ ap ok (ap (λ (p : Value × Value). p.0) (ok_injective h'')));
            same = ap (λ (p : Value × Value). p.1) (ok_injective h'');
          }
    ]

-- What is removed is what stood under the token.
pub resolve-remove_under :
    (parent : Value) (last : Text) {taken after : Value}
    → remove_under parent last ≡ ok (taken, after)
    → resolve parent (last ∷ []) ≡ some taken
unfolding remove_under resolve
resolve-remove_under (arr items) last h =
    let t = array_take items last h in rw (t.read, t.found) refl
resolve-remove_under (obj map) last h =
    let (v, found, h') = >>=-eq-ok (ok_or _ (lookup last map)) _ h in
    rw (ok_or-eq-ok _ (lookup last map) found)
      (ap some (ap (λ (p : Value × Value). p.0) (ok_injective h')))
resolve-remove_under _ last h = cc

-- Where a member can be removed, there is a slot for it; and adding any value at the token of the
-- removed member writes it to that slot.
pub add_under-remove_under :
    (parent : Value) (last : Text) (value : Value) {taken after : Value}
    → IsOrdered parent
    → remove_under parent last ≡ ok (taken, after)
    → (s : Slot) × (resolve_mut parent (last ∷ []) ≡ some s)
      × (s.here ≡ taken)
      × (add_under after last value ≡ ok (s.write value))
unfolding remove_under add_under resolve_mut
add_under-remove_under (arr items) last value {taken} ordered h =
    let t = array_take items last h in
    let rest = remove_item items t.index in
    let named = array_index-named last (count items) t.read in
    let room : ltb (count rest) t.index ≡ false =
      ground (arith, count-remove_item items t.index t.found, item-lt items t.index t.found) in
    (
      record { here = taken; write = λ w. arr (set_item items t.index w) },
      rw (t.read, t.found) refl,
      refl,
      rw
          (
            ← t.same,
            array_index-any last (count rest) (count items) true false named,
            t.read,
            room,
            insert_item-remove_item items t.index value t.found,
          )
          refl,
    )
add_under-remove_under (obj map) last value {taken} {after} ordered h =
    let (v, found, h') = >>=-eq-ok (ok_or _ (lookup last map)) _ h in
    let there = ok_or-eq-ok _ (lookup last map) found in
    let same = ap (λ (p : Value × Value). p.1) (ok_injective h') in
    (
      record { here = v; write = λ w. obj (set_field last w map) },
      rw there refl,
      ap (λ (p : Value × Value). p.0) (ok_injective h'),
      subst (λ (x : Value). add_under x last value ≡ ok (obj (set_field last value map))) same
          (ap (λ fs. ok (obj fs))
            (insert-remove last value v map (ordered_keys map ordered) there)),
    )
add_under-remove_under _ last value ordered h = cc
