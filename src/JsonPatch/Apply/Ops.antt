-- ===== src/JsonPatch/Apply/Ops.antt =====
-- What the operations of a patch do to the document.
use programmable_redfish_pro.Prelude.{
  ◌≡◌, ◌↔◌, sym, ap, ◌∙◌, Bool-cases, some, List, Text, lit, >>=-ext, Option-cases, inl, inr, ok,
  ok_or, >>=-eq-ok, ok_or-eq-ok, ok_injective, err_ne_ok, ltb, ◌≤◌, arith, >>=-eq-ok,
}
use programmable_redfish_pro.Json.{Value, Fields, IsOrdered, lookup, value_eq_iff}
use programmable_redfish_pro.JsonPatch.Pointer.{no_source}
use programmable_redfish_pro.JsonPatch.Locate.{resolve}
use programmable_redfish_pro.JsonPatch.Edit.{patch_remove, nodes}
use programmable_redfish_pro.JsonPatch.Edit.RoundTrip.{
  NamesPlace, resolve-patch_add, patch_add-patch_remove,
}
use programmable_redfish_pro.JsonPatch.Apply.{
  max_copy_nodes, value_field, pointer_field, add_op, remove_op, replace_op, copy_op, test_op,
}

-- Where a `remove` succeeds on a document whose keys are in order, a `replace` there is that
-- `remove` and then an `add`.
pub replace_op-eq-add_op :
    (op : Fields) (path : List Text) (target : Value) {rest : Value}
    → IsOrdered target
    → remove_op path target ≡ ok rest
    → replace_op op path target ≡ add_op op path rest
unfolding replace_op add_op remove_op
replace_op-eq-add_op op path target ordered h =
    let (r, taken, same) = >>=-eq-ok (patch_remove target path) _ h in
    let removed = taken ∙ ap (λ (v : Value). ok (r.0, v)) (ok_injective same) in
    >>=-ext (value_field op) _ _ λ x.
      let (s, found, _, added) = patch_add-patch_remove target path x.0 ordered removed in
      rw found (sym added)

-- A `test` that has a value succeeds exactly when that value stands at the path, and it changes
-- nothing.
pub test_op_iff :
    (op : Fields) (path : List Text) (target after value : Value)
    → lookup (lit "value") op ≡ some value
    → (test_op op path target ≡ ok after) ↔ ((resolve target path ≡ some value) × (after ≡ target))
unfolding test_op value_field
test_op_iff op path target after value given = elim (Option-cases (resolve target path)) [
  | inl missed ↦ ground arith
  | inr (found, e) ↦ ground (arith, value_eq_iff found value)
]

-- A `copy` that succeeds puts the value of its source at its path, which does not end in `-`, and
-- that value has no more nodes than the limit.
pub copy_op_lem :
    (op : Fields) (path from : List Text) (target : Value) {after : Value}
    → NamesPlace path
    → pointer_field op (lit "from") ≡ ok from
    → copy_op op path target ≡ ok after
    → (v : Value) × (resolve target from ≡ some v)
      × (nodes v ≤ max_copy_nodes)
      × (resolve after path ≡ some v)
unfolding copy_op
copy_op_lem op path from target named given h =
    let (source, found, h') =
      >>=-eq-ok (ok_or no_source (resolve target from)) _ (rw (given, copy_op) at h) in
    elim (Bool-cases (ltb max_copy_nodes (nodes source))) [
      | inl large ↦ absurd (err_ne_ok (rw large at h'))
      | inr small ↦ (
        source,
        ok_or-eq-ok no_source (resolve target from) found,
        ground arith,
        resolve-patch_add target path source named (rw small at h'),
      )
    ]
