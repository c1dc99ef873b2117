-- ===== src/JsonPatch/Edit/Move.antt =====
-- What a move does.
use programmable_redfish_pro.Prelude.{
  ◌≡◌, refl, sym, ◌++◌, length-lt_append, lt→ltb, text_eq_refl, Bool-cases, some, List, [], ◌∷◌,
  Text, inl, inr, ok, err, >>=-eq-ok, err_ne_ok, by_last, length, ltb, ◌&&◌, ap, ◌∙◌, arith, false,
  true,
}
use programmable_redfish_pro.Json.{Value, IsOrdered}
use programmable_redfish_pro.JsonPatch.Pointer.{own_descendant}
use programmable_redfish_pro.JsonPatch.Locate.{resolve}
use programmable_redfish_pro.JsonPatch.Locate.Lens.{resolve-here, resolve-append, write_self}
use programmable_redfish_pro.JsonPatch.Edit.{patch_remove, patch_move, begins_with}
use programmable_redfish_pro.JsonPatch.Edit.Under.{resolve-remove_under}
use programmable_redfish_pro.JsonPatch.Edit.RoundTrip.{
  NamesPlace, take_at, whole_remove, resolve-patch_add, patch_add-patch_remove,
}

-- What is removed is what stood at the path.
pub resolve-patch_remove :
    (root : Value) (path : List Text) {taken after : Value}
    → patch_remove root path ≡ ok (taken, after)
    → resolve root path ≡ some taken
resolve-patch_remove root path {taken} {after} =
    by_last (λ p. patch_remove root p ≡ ok (taken, after) → resolve root p ≡ some taken)
      (λ h. absurd (whole_remove root h))
      (λ parents last h.
        let t = take_at root parents last h in
        rw (resolve-append root parents (last ∷ []), resolve-here root parents t.found)
          (resolve-remove_under t.slot.here last t.removed))
      path

-- A move that succeeds has put the value of its source at its target, which does not end in `-`.
pub patch_move_lem :
    (root : Value) (from to : List Text) {after : Value}
    → NamesPlace to
    → patch_move root from to ≡ ok after
    → (v : Value) × (resolve root from ≡ some v) × (resolve after to ≡ some v)
unfolding patch_move
patch_move_lem root from to {after} named h =
    elim (Bool-cases (ltb (length from) (length to) && begins_with from to)) [
      | inl inside ↦ absurd (err_ne_ok (rw inside at h))
      | inr free ↦
          let (r, taken, added) = >>=-eq-ok (patch_remove root from) _ (rw free at h) in
          (
            r.0,
            resolve-patch_remove root from {taken = r.0} {after = r.1} taken,
            resolve-patch_add r.1 to r.0 named added,
          )
    ]

-- Moving a value to where it is changes nothing, where the keys of the document are in order and
-- the value can be removed.
pub patch_move_self :
    (root : Value) (path : List Text) {taken after : Value}
    → IsOrdered root
    → patch_remove root path ≡ ok (taken, after)
    → patch_move root path path ≡ ok root
unfolding patch_move
patch_move_self root path {taken} {after} ordered h =
    let (s, found, same, added) = patch_add-patch_remove root path taken ordered h in
    let apart : ltb (length path) (length path) ≡ false = ground arith in
    rw (apart, h) (added ∙ ap ok (ap s.write (sym same) ∙ write_self root path found))

begins_with-append : (from more : List Text) → begins_with from (from ++ more) ≡ true
unfolding begins_with
begins_with-append [] more = refl
begins_with-append (t ∷ from) more = rw (text_eq_refl t) (begins_with-append from more)

-- No value moves to a place within itself.
pub patch_move_inside :
    (root : Value) (from : List Text) (t : Text) (more : List Text)
    → patch_move root from (from ++ t ∷ more) ≡ err own_descendant
unfolding patch_move
patch_move_inside root from t more =
    rw (lt→ltb _ _ (length-lt_append from t more), begins_with-append from (t ∷ more)) refl
