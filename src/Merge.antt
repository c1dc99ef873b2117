-- ===== src/Merge.antt =====
-- Merge patches (RFC 7386): `merge_json` of src/script_util.rs.
pub mod Pointwise
pub mod Idempotent
use programmable_redfish_pro.Prelude.{Option, none, some, Text, Result, map_err, ◌>>=◌}
use programmable_redfish_pro.Json.{
  Value, null, obj, Items, Fields, end, field, lookup, insert, remove,
}
use programmable_redfish_pro.Scripting.{Scripting}

-- The map of an object, and an empty one in place of anything else.
abbrev pub fields_of : Value → Fields
fields_of (obj map) = map
fields_of _ = end

-- `entry(key).or_insert(Value::Null)`, read.
abbrev pub or_null : Option Value → Value
or_null none = null
or_null (some v) = v

unfoldable mutual
  pub merge_json : Value → Value → Value
  merge_json target (obj patch) = obj (merge_fields (fields_of target) patch)
  merge_json target patch = patch

  -- The loop over the entries of the patch.
  pub merge_fields : Fields → Fields → Fields
  merge_fields map end = map
  merge_fields map (field key null rest) = merge_fields (remove key map) rest
  merge_fields map (field key value rest) =
      merge_fields (insert key (merge_json (or_null (lookup key map)) value) map) rest

module _ (scripting : Scripting) where
  open scripting use {Script, to_json, of_json}

  unfoldable pub json_merge_patch : Script → Script → Result Text Script
  json_merge_patch target patch = do
    target' ← to_json target
    patch' ← to_json patch
    of_json (merge_json target' patch')
