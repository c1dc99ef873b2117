-- ===== src/JsonPatch/Edit/Ordered.antt =====
-- Every edit keeps the keys of a document in order.
use mathlib.Core.Path.{subst}
use programmable_redfish_pro.Prelude.{
  ◌≡◌, List, Text, Bool-cases, inl, inr, ok, ok_or, >>=-eq-ok, ok_or-eq-ok, ok_injective, err_ne_ok,
  by_last, length, ltb, ◌&&◌,
}
use programmable_redfish_pro.Json.{
  Value, arr, obj, lookup, IsOrdered, insert-HasOrderedKeys, remove-HasOrderedKeys,
}
use programmable_redfish_pro.Json.Order.Keeps.{
  item-IsOrdered, lookup-IsOrdered, insert_item-AreOrdered, remove_item-AreOrdered,
  insert-HasOrderedFields, remove-HasOrderedFields,
}
use programmable_redfish_pro.JsonPatch.Locate.Lens.{resolve-here}
use programmable_redfish_pro.JsonPatch.Locate.Ordered.{resolve-IsOrdered, write-IsOrdered}
use programmable_redfish_pro.JsonPatch.Edit.{
  add_under, remove_under, patch_add, patch_remove, patch_move, begins_with,
}
use programmable_redfish_pro.JsonPatch.Edit.Under.{array_add, array_take}
use programmable_redfish_pro.JsonPatch.Edit.RoundTrip.{add_at, take_at, whole_add, whole_remove}

add_under-IsOrdered :
    (parent : Value) (last : Text) (value : Value) {after : Value}
    → IsOrdered parent
    → IsOrdered value
    → add_under parent last value ≡ ok after
    → IsOrdered after
unfolding add_under IsOrdered
add_under-IsOrdered (arr items) last value o v h =
    let t = array_add items last value h in
    subst IsOrdered t.same (insert_item-AreOrdered items t.index value v o)
add_under-IsOrdered (obj map) last value o v h =
    subst IsOrdered (ok_injective h)
      (insert-HasOrderedKeys last value map o.0, insert-HasOrderedFields last value map v o.1)
add_under-IsOrdered _ last value o v h = cc

remove_under-IsOrdered :
    (parent : Value) (last : Text) {taken after : Value}
    → IsOrdered parent
    → remove_under parent last ≡ ok (taken, after)
    → IsOrdered taken × IsOrdered after
unfolding remove_under IsOrdered
remove_under-IsOrdered (arr items) last o h =
    let t = array_take items last h in
    (
      item-IsOrdered items t.index t.found o,
      subst IsOrdered t.same (remove_item-AreOrdered items t.index o),
    )
remove_under-IsOrdered (obj map) last o h =
    let (v, found, h') = >>=-eq-ok (ok_or _ (lookup last map)) _ h in
    subst (λ (p : Value × Value). IsOrdered p.0 × IsOrdered p.1) (ok_injective h')
      (
        lookup-IsOrdered last map (ok_or-eq-ok _ (lookup last map) found) o.1,
        (remove-HasOrderedKeys last map o.0, remove-HasOrderedFields last map o.1),
      )
remove_under-IsOrdered _ last o h = cc

pub patch_add-IsOrdered :
    (root : Value) (path : List Text) (value : Value) {after : Value}
    → IsOrdered root
    → IsOrdered value
    → patch_add root path value ≡ ok after
    → IsOrdered after
patch_add-IsOrdered root path value {after} o v =
    by_last (λ p. patch_add root p value ≡ ok after → IsOrdered after)
      (λ h. subst IsOrdered (whole_add root value h) v)
      (λ parents last h.
        let t = add_at root parents last value h in
        let here = resolve-IsOrdered root parents o (resolve-here root parents t.found) in
        subst IsOrdered t.same (
          write-IsOrdered root parents t.parent o
            (add_under-IsOrdered t.slot.here last value here v t.added) t.found))
      path

pub patch_remove-IsOrdered :
    (root : Value) (path : List Text) {taken after : Value}
    → IsOrdered root
    → patch_remove root path ≡ ok (taken, after)
    → IsOrdered taken × IsOrdered after
patch_remove-IsOrdered root path {taken} {after} o =
    by_last (λ p. patch_remove root p ≡ ok (taken, after) → IsOrdered taken × IsOrdered after)
      (λ h. absurd (whole_remove root h))
      (λ parents last h.
        let t = take_at root parents last h in
        let here = resolve-IsOrdered root parents o (resolve-here root parents t.found) in
        let parts = remove_under-IsOrdered t.slot.here last here t.removed in
        (parts.0, subst IsOrdered t.same (write-IsOrdered root parents t.parent o parts.1 t.found)))
      path

pub patch_move-IsOrdered :
    (root : Value) (from to : List Text) {after : Value}
    → IsOrdered root
    → patch_move root from to ≡ ok after
    → IsOrdered after
unfolding patch_move
patch_move-IsOrdered root from to o h =
    elim (Bool-cases (ltb (length from) (length to) && begins_with from to)) [
      | inl inside ↦ absurd (err_ne_ok (rw inside at h))
      | inr free ↦
          let (r, taken, added) = >>=-eq-ok (patch_remove root from) _ (rw free at h) in
          let parts = patch_remove-IsOrdered root from {taken = r.0} {after = r.1} o taken in
          patch_add-IsOrdered r.1 to r.0 parts.1 parts.0 added
    ]
