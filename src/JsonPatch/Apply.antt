-- ===== src/JsonPatch/Apply.antt =====
-- One operation, and a patch of many: `pointer_field`, `value_field`, `apply_one`,
-- `apply_patch` and `json_patch` of src/script_util.rs.
pub mod Ops
pub mod Single
pub mod Whole
use programmable_redfish_pro.Prelude.{
  ℕ, suc, ◌*◌, none, some, List, Text, lit, text_eq, ltb, if◌then◌else◌, Result, ok, err, ok_or,
  map_err, ◌>>=◌,
}
use programmable_redfish_pro.Json.{
  Value, str, arr, obj, Items, nil, cons, Fields, count, lookup, remove, value_eq,
}
use programmable_redfish_pro.JsonPatch.Pointer.{
  OpError, pointer_tokens, not_string, missing, no_location, no_source, too_many_nodes,
  not_tested_value, unknown_op, op_not_object,
}
use programmable_redfish_pro.JsonPatch.Locate.{resolve, resolve_mut}
use programmable_redfish_pro.JsonPatch.Edit.{patch_add, patch_remove, patch_move, nodes}
use programmable_redfish_pro.Scripting.{Scripting}

abbrev pub max_patch_ops : ℕ
max_patch_ops = 1024

abbrev pub max_copy_nodes : ℕ
max_copy_nodes = 64 * 1024

unfoldable pub string_field : Fields → Text → Result OpError Text
string_field op key = elim (lookup key op) [
  | some (str text) ↦ ok text
  | some _ ↦ err (not_string key)
  | none ↦ err (missing key)
]

unfoldable pub pointer_field : Fields → Text → Result OpError (List Text)
unfolding string_field
pointer_field op key = do text ← string_field op key; pointer_tokens text

-- The value, and what the `remove` leaves of the operation.
unfoldable pub value_field : Fields → Result OpError (Value × Fields)
value_field op = do
  value ← ok_or (missing (lit "value")) (lookup (lit "value") op)
  ok (value, remove (lit "value") op)

unfoldable pub add_op : Fields → List Text → Value → Result OpError Value
add_op op path target = do (value, op') ← value_field op; patch_add target path value

unfoldable pub remove_op : List Text → Value → Result OpError Value
remove_op path target = do (taken, rest) ← patch_remove target path; ok rest

unfoldable pub replace_op : Fields → List Text → Value → Result OpError Value
replace_op op path target = do
  (value, op') ← value_field op
  slot ← ok_or no_location (resolve_mut target path)
  ok (slot.write value)

unfoldable pub move_op : Fields → List Text → Value → Result OpError Value
move_op op path target = do from ← pointer_field op (lit "from"); patch_move target from path

unfoldable pub copy_op : Fields → List Text → Value → Result OpError Value
copy_op op path target = do
  from ← pointer_field op (lit "from")
  source ← ok_or no_source (resolve target from)
  if ltb max_copy_nodes (nodes source)
      then err (too_many_nodes (nodes source))
      else patch_add target path source

unfoldable pub test_op : Fields → List Text → Value → Result OpError Value
test_op op path target = do
  (value, op') ← value_field op
  found ← ok_or no_location (resolve target path)
  if value_eq found value then ok target else err not_tested_value

-- The `match name.as_str()` of `apply_one`.
unfoldable pub run_op : Text → Fields → List Text → Value → Result OpError Value
run_op name op path target =
    if text_eq name (lit "add")
    then add_op op path target
    else if text_eq name (lit "remove")
    then remove_op path target
    else if text_eq name (lit "replace")
    then replace_op op path target
    else if text_eq name (lit "move")
    then move_op op path target
    else if text_eq name (lit "copy")
    then copy_op op path target
    else if text_eq name (lit "test")
    then test_op op path target
    else err (unknown_op name)

unfoldable pub apply_one : Value → Value → Result OpError Value
unfolding string_field run_op
apply_one target (obj op) = do
  name ← string_field op (lit "op")
  path ← pointer_field op (lit "path")
  run_op name op path target
apply_one target _ = err op_not_object

-- What a whole patch is refused for.
pub data PatchError : Type 0 where
  not_an_array : PatchError
  too_many_ops : ℕ → PatchError
  op_failed : (index : ℕ) → OpError → PatchError

-- The loop of `apply_patch`, from the index of its first operation.
unfoldable pub apply_from : ℕ → Value → Items → Result PatchError Value
apply_from index target nil = ok target
apply_from index target (cons op ops) = do
  target' ← map_err (op_failed index) (apply_one target op)
  apply_from (suc index) target' ops

unfoldable pub apply_patch : Value → Value → Result PatchError Value
unfolding apply_from
apply_patch target (arr ops) =
    if ltb max_patch_ops (count ops)
    then err (too_many_ops (count ops))
    else apply_from 0 target ops
apply_patch target _ = err not_an_array

pub data JsonPatchError : Type 0 where
  not_convertible : Text → JsonPatchError
  patch_failed : PatchError → JsonPatchError

module _ (scripting : Scripting) where
  open scripting use {Script, to_json, of_json}

  -- `json_patch` as a script calls it.
  unfoldable pub json_patch : Script → Script → Result JsonPatchError Script
  unfolding apply_patch
  json_patch target ops = do
    patched ← map_err not_convertible (to_json target)
    ops' ← map_err not_convertible (to_json ops)
    patched' ← map_err patch_failed (apply_patch patched ops')
    map_err not_convertible (of_json patched')
