-- ===== src/JsonPatch/Apply/Single.antt =====
-- What every operation keeps: the order of the keys, and a bound on the nodes it adds.
use mathlib.Core.Path.{subst}
use mathlib.Core.Option.{some-injective}
use programmable_redfish_pro.Prelude.{
  ◌+◌, ◌≤◌, ◌≡◌, ap, Bool-cases, some, List, Text, lit, inl, inr, ok, ok_or, >>=-eq-ok, ok_or-eq-ok,
  ok_injective, err_ne_ok, ltb, arith, text_eq,
}
use programmable_redfish_pro.Json.{
  Value, null, obj, Fields, end, field, IsOrdered, HasOrderedFields, lookup, value_eq,
}
use programmable_redfish_pro.Json.Order.Keeps.{lookup-IsOrdered}
use programmable_redfish_pro.JsonPatch.Pointer.{missing, no_location, no_source}
use programmable_redfish_pro.JsonPatch.Locate.{resolve, resolve_mut}
use programmable_redfish_pro.JsonPatch.Locate.Ordered.{resolve-IsOrdered, write-IsOrdered}
use programmable_redfish_pro.JsonPatch.Edit.{patch_remove, nodes, nodes_fields}
use programmable_redfish_pro.JsonPatch.Edit.Size.{
  nodes-write, nodes-patch_add, nodes-patch_remove, nodes-patch_move,
}
use programmable_redfish_pro.JsonPatch.Edit.Ordered.{
  patch_add-IsOrdered, patch_remove-IsOrdered, patch_move-IsOrdered,
}
use programmable_redfish_pro.JsonPatch.Apply.{
  max_copy_nodes, string_field, value_field, pointer_field, add_op, remove_op, replace_op, move_op,
  copy_op, test_op, run_op, apply_one,
}

-- What an operation may leave of a document: ordered keys, and few nodes more.
record Leaves (op : Fields) (target after : Value) : Type 0 where
  ordered : IsOrdered target → HasOrderedFields op → IsOrdered after
  small : nodes after ≤ nodes target + nodes_fields op + max_copy_nodes

nodes-lookup :
    (k : Text) (fs : Fields) (v : Value) → lookup k fs ≡ some v → nodes v ≤ nodes_fields fs
unfolding nodes lookup
nodes-lookup k end v h = cc
nodes-lookup k (field j w fs) v h = elim (Bool-cases (text_eq j k)) [
  | inl same ↦ omega (arith, ap nodes (some-injective w v (rw same at h)))
  | inr other ↦ omega (arith, nodes-lookup k fs v (rw other at h))
]

record Given (op : Fields) (p : Value × Fields) : Type 0 where
  small : nodes p.0 ≤ nodes_fields op
  ordered : HasOrderedFields op → IsOrdered p.0

value-Given : (op : Fields) {p : Value × Fields} → value_field op ≡ ok p → Given op p
unfolding value_field
value-Given op h =
    let (v, found, e) = >>=-eq-ok (ok_or (missing (lit "value")) (lookup (lit "value") op)) _ h in
    let there = ok_or-eq-ok _ (lookup (lit "value") op) found in
    subst (Given op) (ok_injective e) (record {
      small = nodes-lookup (lit "value") op v there;
      ordered = λ o. lookup-IsOrdered (lit "value") op there o;
    })

module _ (op : Fields) (path : List Text) (target : Value) {after : Value} where
  add-Leaves : add_op op path target ≡ ok after → Leaves op target after
  unfolding add_op
  add-Leaves h =
      let (x, given, h') = >>=-eq-ok (value_field op) _ h in
      let g = value-Given op given in
      record {
        ordered = λ o p. patch_add-IsOrdered target path x.0 o (g.ordered p) h';
        small = omega (arith, nodes-patch_add target path x.0 h', g.small);
      }

  remove-Leaves : remove_op path target ≡ ok after → Leaves op target after
  unfolding remove_op
  remove-Leaves h =
      let (r, taken, same) = >>=-eq-ok (patch_remove target path) _ h in
      subst (Leaves op target) (ok_injective same) (record {
        ordered = λ o p. (patch_remove-IsOrdered target path {taken = r.0} {after = r.1} o taken).1;
        small = omega (arith, nodes-patch_remove target path {taken = r.0} {after = r.1} taken);
      })

  replace-Leaves : replace_op op path target ≡ ok after → Leaves op target after
  unfolding replace_op
  replace-Leaves h =
      let (x, given, h') = >>=-eq-ok (value_field op) _ h in
      let (s, found, same) = >>=-eq-ok (ok_or no_location (resolve_mut target path)) _ h' in
      let g = value-Given op given in
      let there = ok_or-eq-ok _ (resolve_mut target path) found in
      subst (Leaves op target) (ok_injective same) (record {
        ordered = λ o p. write-IsOrdered target path x.0 o (g.ordered p) there;
        small = omega (arith, nodes-write target path x.0 there, g.small);
      })

  move-Leaves : move_op op path target ≡ ok after → Leaves op target after
  unfolding move_op
  move-Leaves h =
      let (from, given, h') = >>=-eq-ok (pointer_field op (lit "from")) _ h in
      record {
        ordered = λ o p. patch_move-IsOrdered target from path o h';
        small = omega (arith, nodes-patch_move target from path h');
      }

  copy-Leaves : copy_op op path target ≡ ok after → Leaves op target after
  unfolding copy_op
  copy-Leaves h =
      let (from, given, h') = >>=-eq-ok (pointer_field op (lit "from")) _ h in
      let (source, found, h'') = >>=-eq-ok (ok_or no_source (resolve target from)) _ h' in
      let there = ok_or-eq-ok _ (resolve target from) found in
      elim (Bool-cases (ltb max_copy_nodes (nodes source))) [
        | inl large ↦ absurd (err_ne_ok (rw large at h''))
        | inr small ↦
            let added = rw small at h'' in
            let few : nodes source ≤ max_copy_nodes = ground arith in
            record {
              ordered = λ o p.
                  patch_add-IsOrdered target path source o (resolve-IsOrdered target from o there)
                    added;
              small = omega (arith, nodes-patch_add target path source added, few);
            }
      ]

  test-Leaves : test_op op path target ≡ ok after → Leaves op target after
  unfolding test_op
  test-Leaves h =
      let (x, given, h') = >>=-eq-ok (value_field op) _ h in
      let (found, there, h'') = >>=-eq-ok (ok_or no_location (resolve target path)) _ h' in
      elim (Bool-cases (value_eq found x.0)) [
        | inl same ↦
            subst (Leaves op target) (ok_injective (rw same at h''))
              (record { ordered = λ o p. o; small = omega arith })
        | inr other ↦ absurd (err_ne_ok (rw other at h''))
      ]

  run-Leaves : (name : Text) → run_op name op path target ≡ ok after → Leaves op target after
  unfolding run_op
  run-Leaves name h = elim (Bool-cases (text_eq name (lit "add"))) [
    | inl e ↦ add-Leaves (rw e at h)
    | inr n1 ↦ elim (Bool-cases (text_eq name (lit "remove"))) [
      | inl e ↦ remove-Leaves (rw (n1, e) at h)
      | inr n2 ↦ elim (Bool-cases (text_eq name (lit "replace"))) [
        | inl e ↦ replace-Leaves (rw (n1, n2, e) at h)
        | inr n3 ↦ elim (Bool-cases (text_eq name (lit "move"))) [
          | inl e ↦ move-Leaves (rw (n1, n2, n3, e) at h)
          | inr n4 ↦ elim (Bool-cases (text_eq name (lit "copy"))) [
            | inl e ↦ copy-Leaves (rw (n1, n2, n3, n4, e) at h)
            | inr n5 ↦ elim (Bool-cases (text_eq name (lit "test"))) [
              | inl e ↦ test-Leaves (rw (n1, n2, n3, n4, n5, e) at h)
              | inr n6 ↦ absurd (err_ne_ok (rw (n1, n2, n3, n4, n5, n6) at h))
            ]
          ]
        ]
      ]
    ]
  ]

one-Leaves :
    (op : Fields) (target : Value) {after : Value}
    → apply_one target (obj op) ≡ ok after
    → Leaves op target after
unfolding apply_one
one-Leaves op target h =
    let (name, named, h') = >>=-eq-ok (string_field op (lit "op")) _ h in
    let (path, placed, h'') = >>=-eq-ok (pointer_field op (lit "path")) _ h' in
    run-Leaves op path target name h''

pub apply_one-IsOrdered :
    (target op : Value) {after : Value}
    → IsOrdered target
    → IsOrdered op
    → apply_one target op ≡ ok after
    → IsOrdered after
unfolding apply_one IsOrdered
apply_one-IsOrdered target null o p h = cc
apply_one-IsOrdered target (obj op) o p h = (one-Leaves op target h).ordered o p.1
apply_one-IsOrdered target _ o p h = cc

-- One operation adds at most its own nodes, and those of the largest copy.
pub nodes-apply_one :
    (target op : Value) {after : Value}
    → apply_one target op ≡ ok after
    → nodes after ≤ nodes target + nodes op + max_copy_nodes
unfolding apply_one nodes
nodes-apply_one target null h = cc
nodes-apply_one target (obj op) h = omega (arith, (one-Leaves op target h).small)
nodes-apply_one target _ h = cc
