-- ===== src/Examples/Patching.antt =====
-- Patches of a small document.
use programmable_redfish_pro.Prelude.{
  ◌+◌, ◌*◌, ◌≤◌, ◌≡◌, refl, ◌↔◌, some, List, [], ◌∷◌, Text, lit, text_eq, text_lt, ok, err,
}
use programmable_redfish_pro.Json.{
  Value, null, str, arr, obj, Items, set_field, insert, remove, value_eq, nil, cons, Fields, end,
  field, count, lookup, IsOrdered,
}
use programmable_redfish_pro.JsonPatch.Pointer.{pointer_tokens, not_tested_value}
use programmable_redfish_pro.JsonPatch.Pointer.RoundTrip.{
  print_pointer, pointer_tokens-print_pointer,
}
use programmable_redfish_pro.JsonPatch.Locate.{Slot, resolve, resolve_mut}
use programmable_redfish_pro.JsonPatch.Edit.{patch_add, patch_remove, patch_move, nodes}
use programmable_redfish_pro.JsonPatch.Edit.RoundTrip.{
  patch_remove-patch_add, patch_add-patch_remove,
}
use programmable_redfish_pro.JsonPatch.Apply.{
  add_op, remove_op, replace_op, copy_op, test_op, pointer_field, value_field, apply_one,
  apply_patch, op_failed, max_patch_ops, max_copy_nodes,
}
use programmable_redfish_pro.JsonPatch.Apply.Whole.{
  Run, StopsAt, apply_patch-eq-ok_iff, apply_patch-eq-op_failed_iff, nodes-apply_patch,
}

-- {"Boot":{"Mode":"Uefi"},"Id":"1"}
abbrev boot : Value
unfolding lit
boot = obj (field (lit "Mode") (str (lit "Uefi")) end)

abbrev system : Value
unfolding lit
system = obj (field (lit "Boot") boot (field (lit "Id") (str (lit "1")) end))

abbrev mode_path : List Text
unfolding lit
mode_path = lit "Boot" ∷ lit "Mode" ∷ []

abbrev order_path : List Text
unfolding lit
order_path = lit "Boot" ∷ lit "Order" ∷ []

abbrev with_order : Value
unfolding lit
with_order = obj (
    field (lit "Boot") (obj (field (lit "Mode") (str (lit "Uefi")) (field (lit "Order") null end)))
      (field (lit "Id") (str (lit "1")) end))

abbrev without_mode : Value
unfolding lit
without_mode = obj (field (lit "Boot") (obj end) (field (lit "Id") (str (lit "1")) end))

abbrev moved : Value
unfolding lit
moved = obj (
    field (lit "Boot") (obj (field (lit "Order") (str (lit "Uefi")) end))
      (field (lit "Id") (str (lit "1")) end))

abbrev copied : Value
unfolding lit
copied = obj (
    field (lit "Boot")
      (obj (field (lit "Mode") (str (lit "Uefi")) (field (lit "Order") (str (lit "Uefi")) end)))
      (field (lit "Id") (str (lit "1")) end))

abbrev replacing : Fields
unfolding lit
replacing = field (lit "value") (str (lit "Bios")) end

abbrev copying : Fields
unfolding lit
copying = field (lit "from") (str (lit "/Boot/Mode")) end

-- {"op":"remove","path":"/Boot"}
abbrev remove_boot : Value
unfolding lit
remove_boot =
    obj (field (lit "op") (str (lit "remove")) (field (lit "path") (str (lit "/Boot")) end))

-- {"op":..,"path":"/Id","value":"2"}
abbrev on_id : Text → Value
unfolding lit
on_id name = obj (
    field (lit "op") (str name)
      (field (lit "path") (str (lit "/Id")) (field (lit "value") (str (lit "2")) end)))

abbrev two_ops : Items
unfolding lit
two_ops = cons remove_boot (cons (on_id (lit "replace")) nil)

abbrev failing_ops : Items
unfolding lit
failing_ops = cons remove_boot (cons (on_id (lit "test")) nil)

abbrev patched : Value
unfolding lit
patched = obj (field (lit "Id") (str (lit "2")) end)

system-IsOrdered : IsOrdered system
unfolding IsOrdered lit text_lt
system-IsOrdered = (((refl, tt), (tt, tt)), (((tt, tt), (tt, tt)), (tt, tt)))

two_ops-IsOrdered : IsOrdered (arr two_ops)
unfolding IsOrdered lit text_lt
two_ops-IsOrdered = (
  (((refl, tt), (tt, tt)), (tt, (tt, tt))),
  ((((refl, (refl, tt)), ((refl, tt), (tt, tt))), (tt, (tt, (tt, tt)))), tt),
)

pointer_tokens-print_pointer_example :
    pointer_tokens (print_pointer (lit "a/b" ∷ lit "m~n" ∷ [])) ≡ ok (lit "a/b" ∷ lit "m~n" ∷ [])
pointer_tokens-print_pointer_example = pointer_tokens-print_pointer (lit "a/b" ∷ lit "m~n" ∷ [])

patch_remove-patch_add_example : patch_remove with_order order_path ≡ ok (null, system)
unfolding patch_add patch_remove patch_move resolve_mut resolve lit text_eq text_lt lookup set_field
    insert remove
patch_remove-patch_add_example = patch_remove-patch_add system order_path null refl refl refl

patch_add-patch_remove_example :
    (s : Slot) × (resolve_mut system mode_path ≡ some s)
    × (s.here ≡ str (lit "Uefi"))
    × (patch_add without_mode mode_path null ≡ ok (s.write null))
unfolding patch_add patch_remove patch_move resolve_mut resolve lit text_eq text_lt lookup set_field
    insert remove
patch_add-patch_remove_example = patch_add-patch_remove system mode_path null system-IsOrdered refl

apply_patch-eq-ok_iff_example :
    (apply_patch system (arr two_ops) ≡ ok patched)
    ↔ ((count two_ops ≤ max_patch_ops) × Run system two_ops (count two_ops) patched nil)
apply_patch-eq-ok_iff_example = apply_patch-eq-ok_iff system two_ops patched

apply_patch-eq-op_failed_iff_example :
    (apply_patch system (arr failing_ops) ≡ err (op_failed 1 not_tested_value))
    ↔ ((count failing_ops ≤ max_patch_ops) × StopsAt system failing_ops 1 not_tested_value)
apply_patch-eq-op_failed_iff_example =
    apply_patch-eq-op_failed_iff system failing_ops 1 not_tested_value

nodes-apply_patch_example :
    nodes patched ≤ nodes system + nodes (arr two_ops) + max_patch_ops * max_copy_nodes
unfolding apply_patch add_op remove_op replace_op copy_op test_op pointer_field patch_add
    patch_remove resolve_mut resolve lit text_eq text_lt lookup set_field insert remove nodes
    IsOrdered apply_one pointer_tokens value_field value_eq
nodes-apply_patch_example = nodes-apply_patch system two_ops patched refl

-- The second operation of the failing patch is the one that is reported.
failing_run : apply_patch system (arr failing_ops) ≡ err (op_failed 1 not_tested_value)
unfolding apply_patch add_op remove_op replace_op copy_op test_op pointer_field patch_add
    patch_remove resolve_mut resolve lit text_eq text_lt lookup set_field insert remove nodes
    IsOrdered apply_one pointer_tokens value_field value_eq
failing_run = refl
