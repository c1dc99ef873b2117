-- ===== src/JsonPatch/Edit.antt =====
-- The edits that the operations are made of: `patch_add`, `patch_remove`, `patch_move` and `nodes`
-- of src/script_util.rs. A function on `&mut Value` takes the document and returns the new one.
pub mod Under
pub mod RoundTrip
pub mod Size
pub mod Ordered
pub mod Move
use programmable_redfish_pro.Prelude.{
  ℕ, ◌+◌, Bool, true, false, ◌&&◌, none, some, List, [], ◌∷◌, Text, text_eq, ltb, leb, length,
  split_last, if◌then◌else◌, Result, ok, err, ok_or, ◌>>=◌,
}
use programmable_redfish_pro.Json.{
  Value, null, arr, obj, Items, nil, cons, Fields, end, field, count, item, insert_item,
  remove_item, lookup, insert, remove,
}
use programmable_redfish_pro.JsonPatch.Pointer.{
  OpError, array_index, past_end, bad_parent, no_parent, whole_document, not_there, own_descendant,
}
use programmable_redfish_pro.JsonPatch.Locate.{resolve_mut}

-- The `match parent` of `patch_add`.
unfoldable pub add_under : Value → Text → Value → Result OpError Value
add_under (arr items) last value = do
  index ← array_index last (count items) true
  if ltb (count items) index
      then err (past_end index (count items))
      else ok (arr (insert_item items index value))
add_under (obj map) last value = ok (obj (insert last value map))
add_under _ last value = err bad_parent

unfoldable pub patch_add : Value → List Text → Value → Result OpError Value
unfolding add_under
patch_add root tokens value = elim (split_last tokens) [
  | none ↦ ok value
  | some (parents, last) ↦ do
    slot ← ok_or no_parent (resolve_mut root parents)
    parent ← add_under slot.here last value
    ok (slot.write parent)
]

-- The `match parent` of `patch_remove`: the value taken out, and what is left of the parent.
unfoldable pub remove_under : Value → Text → Result OpError (Value × Value)
remove_under (arr items) last = do
  index ← array_index last (count items) false
  if leb (count items) index then err (past_end index (count items)) else (do
    taken ← ok_or (past_end index (count items)) (item items index)
    ok (taken, arr (remove_item items index)))
remove_under (obj map) last = do
  taken ← ok_or (not_there last) (lookup last map)
  ok (taken, obj (remove last map))
remove_under _ last = err bad_parent

unfoldable pub patch_remove : Value → List Text → Result OpError (Value × Value)
unfolding remove_under
patch_remove root tokens = elim (split_last tokens) [
  | none ↦ err whole_document
  | some (parents, last) ↦ do
    slot ← ok_or no_parent (resolve_mut root parents)
    (taken, parent) ← remove_under slot.here last
    ok (taken, slot.write parent)
]

unfoldable mutual
  pub nodes : Value → ℕ
  nodes null = 1
  nodes (arr items) = 1 + nodes_items items
  nodes (obj map) = 1 + nodes_fields map
  nodes _ = 1

  pub nodes_items : Items → ℕ
  nodes_items nil = 0
  nodes_items (cons v vs) = nodes v + nodes_items vs

  pub nodes_fields : Fields → ℕ
  nodes_fields end = 0
  nodes_fields (field k v fs) = nodes v + nodes_fields fs

-- Whether the second list begins with the first: `to[..from.len()] == *from`.
unfoldable pub begins_with : List Text → List Text → Bool
begins_with [] to = true
begins_with (t ∷ from) [] = false
begins_with (t ∷ from) (u ∷ to) = text_eq t u && begins_with from to

unfoldable pub patch_move : Value → List Text → List Text → Result OpError Value
unfolding begins_with
patch_move root from to =
    if ltb (length from) (length to) && begins_with from to
    then err own_descendant
    else do (value, rest) ← patch_remove root from; patch_add rest to value
