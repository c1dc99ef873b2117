-- ===== src/JsonPatch/Edit/Size.antt =====
-- How many nodes an edit leaves in a document.
use mathlib.Core.Path.{subst}
use mathlib.Core.Option.{some-injective}
use programmable_redfish_pro.Prelude.{
  ℕ, zero, suc, ◌+◌, ◌≤◌, ◌≡◌, ap, some, List, [], ◌∷◌, Text, text_eq, Bool-cases, inl, inr, arith,
  ok, >>=-eq-ok, ok_or-eq-ok, ok_or, ok_injective, by_last, length, ltb, err_ne_ok, ◌&&◌,
}
use programmable_redfish_pro.Json.{
  Value, arr, obj, Items, nil, cons, Fields, end, field, item, lookup, set_item, insert_item,
  remove_item, set_field, insert, remove,
}
use programmable_redfish_pro.JsonPatch.Locate.{resolve_mut, Slot}
use programmable_redfish_pro.JsonPatch.Locate.Lens.{item_step, field_step}
use programmable_redfish_pro.JsonPatch.Edit.{
  nodes, nodes_items, nodes_fields, add_under, remove_under, patch_add, patch_remove, patch_move,
  begins_with,
}
use programmable_redfish_pro.JsonPatch.Edit.Under.{array_add, array_take}
use programmable_redfish_pro.JsonPatch.Edit.RoundTrip.{add_at, take_at, whole_add, whole_remove}

nodes-set_item :
    (vs : Items) (i : ℕ) (v w : Value)
    → item vs i ≡ some v
    → nodes_items (set_item vs i w) + nodes v ≡ nodes_items vs + nodes w
unfolding nodes
nodes-set_item nil i v w h = cc
nodes-set_item (cons x vs) zero v w h = ground arith
nodes-set_item (cons x vs) (suc i) v w h = omega (arith, nodes-set_item vs i v w h)

nodes-insert_item :
    (vs : Items) (i : ℕ) (w : Value) → nodes_items (insert_item vs i w) ≤ nodes_items vs + nodes w
unfolding nodes
nodes-insert_item vs zero w = omega arith
nodes-insert_item nil (suc i) w = omega arith
nodes-insert_item (cons x vs) (suc i) w = omega (arith, nodes-insert_item vs i w)

nodes-remove_item :
    (vs : Items) (i : ℕ) (v : Value)
    → item vs i ≡ some v
    → nodes_items (remove_item vs i) + nodes v ≡ nodes_items vs
unfolding nodes
nodes-remove_item nil i v h = cc
nodes-remove_item (cons x vs) zero v h = ground arith
nodes-remove_item (cons x vs) (suc i) v h = omega (arith, nodes-remove_item vs i v h)

nodes-set_field :
    (k : Text) (fs : Fields) (v w : Value)
    → lookup k fs ≡ some v
    → nodes_fields (set_field k w fs) + nodes v ≡ nodes_fields fs + nodes w
unfolding nodes lookup set_field
nodes-set_field k end v w h = cc
nodes-set_field k (field j x fs) v w h = elim (Bool-cases (text_eq j k)) [
  | inl same ↦ rw same (omega (arith, ap nodes (some-injective x v (rw same at h))))
  | inr other ↦ rw other (omega (arith, nodes-set_field k fs v w (rw other at h)))
]

nodes-insert :
    (k : Text) (w : Value) (fs : Fields) → nodes_fields (insert k w fs) ≤ nodes_fields fs + nodes w
unfolding nodes insert
nodes-insert k w end = omega arith
nodes-insert k w (field j x fs) = ground (arith, nodes-insert k w fs)

nodes-remove_le : (k : Text) (fs : Fields) → nodes_fields (remove k fs) ≤ nodes_fields fs
unfolding nodes remove
nodes-remove_le k end = omega arith
nodes-remove_le k (field j x fs) = ground (arith, nodes-remove_le k fs)

nodes-remove :
    (k : Text) (fs : Fields) (v : Value)
    → lookup k fs ≡ some v
    → nodes_fields (remove k fs) + nodes v ≤ nodes_fields fs
unfolding nodes remove lookup
nodes-remove k end v h = cc
nodes-remove k (field j x fs) v h = elim (Bool-cases (text_eq j k)) [
  | inl same ↦
      rw same (omega (arith, ap nodes (some-injective x v (rw same at h)), nodes-remove_le k fs))
  | inr other ↦ rw other (omega (arith, nodes-remove k fs v (rw other at h)))
]

-- A write exchanges the nodes of what stood there for those of what was written.
pub nodes-write :
    (root : Value) (tokens : List Text) (w : Value) {s : Slot}
    → resolve_mut root tokens ≡ some s
    → nodes (s.write w) + nodes s.here ≡ nodes root + nodes w
unfolding resolve_mut nodes
nodes-write root [] w h =
    subst (λ (x : Slot). nodes (x.write w) + nodes x.here ≡ nodes root + nodes w)
      (some-injective _ _ h) (omega arith)
nodes-write (arr items) (token ∷ tokens) w h =
    let t = item_step items token tokens h in
    subst (λ (x : Slot). nodes (x.write w) + nodes x.here ≡ nodes (arr items) + nodes w) t.same
      (omega (
        arith,
        nodes-write t.node tokens w t.rest,
        nodes-set_item items t.index t.node (t.inner.write w) t.found,
      ))
nodes-write (obj map) (token ∷ tokens) w h =
    let t = field_step map token tokens h in
    subst (λ (x : Slot). nodes (x.write w) + nodes x.here ≡ nodes (obj map) + nodes w) t.same
      (omega (
        arith,
        nodes-write t.node tokens w t.rest,
        nodes-set_field token map t.node (t.inner.write w) t.found,
      ))
nodes-write _ (token ∷ tokens) w h = cc

nodes-add_under :
    (parent : Value) (last : Text) (value : Value) {after : Value}
    → add_under parent last value ≡ ok after
    → nodes after ≤ nodes parent + nodes value
unfolding add_under nodes
nodes-add_under (arr items) last value h =
    let t = array_add items last value h in
    subst (λ (v : Value). nodes v ≤ nodes (arr items) + nodes value) t.same
      (omega (arith, nodes-insert_item items t.index value))
nodes-add_under (obj map) last value h =
    subst (λ (v : Value). nodes v ≤ nodes (obj map) + nodes value) (ok_injective h)
      (omega (arith, nodes-insert last value map))
nodes-add_under _ last value h = cc

nodes-remove_under :
    (parent : Value) (last : Text) {taken after : Value}
    → remove_under parent last ≡ ok (taken, after)
    → nodes after + nodes taken ≤ nodes parent
unfolding remove_under nodes
nodes-remove_under (arr items) last {taken} h =
    let t = array_take items last h in
    subst (λ (v : Value). nodes v + nodes taken ≤ nodes (arr items)) t.same
      (omega (arith, nodes-remove_item items t.index taken t.found))
nodes-remove_under (obj map) last h =
    let (v, found, h') = >>=-eq-ok (ok_or _ (lookup last map)) _ h in
    subst (λ (p : Value × Value). nodes p.1 + nodes p.0 ≤ nodes (obj map)) (ok_injective h')
      (omega (arith, nodes-remove last map v (ok_or-eq-ok _ (lookup last map) found)))
nodes-remove_under _ last h = cc

-- An addition adds at most the nodes of the value.
pub nodes-patch_add :
    (root : Value) (path : List Text) (value : Value) {after : Value}
    → patch_add root path value ≡ ok after
    → nodes after ≤ nodes root + nodes value
nodes-patch_add root path value {after} =
    by_last (λ p. patch_add root p value ≡ ok after → nodes after ≤ nodes root + nodes value)
      (λ h. subst (λ v. nodes v ≤ nodes root + nodes value) (whole_add root value h) (omega arith))
      (λ parents last h.
        let t = add_at root parents last value h in
        subst (λ v. nodes v ≤ nodes root + nodes value) t.same
          (omega (
            arith,
            nodes-write root parents t.parent t.found,
            nodes-add_under t.slot.here last value t.added,
          )))
      path

-- A removal takes the nodes of the value away.
pub nodes-patch_remove :
    (root : Value) (path : List Text) {taken after : Value}
    → patch_remove root path ≡ ok (taken, after)
    → nodes after + nodes taken ≤ nodes root
nodes-patch_remove root path {taken} {after} =
    by_last (λ p. patch_remove root p ≡ ok (taken, after) → nodes after + nodes taken ≤ nodes root)
      (λ h. absurd (whole_remove root h))
      (λ parents last h.
        let t = take_at root parents last h in
        subst (λ v. nodes v + nodes taken ≤ nodes root) t.same
          (omega (
            arith,
            nodes-write root parents t.parent t.found,
            nodes-remove_under t.slot.here last t.removed,
          )))
      path

-- A move adds no node.
pub nodes-patch_move :
    (root : Value) (from to : List Text) {after : Value}
    → patch_move root from to ≡ ok after
    → nodes after ≤ nodes root
unfolding patch_move
nodes-patch_move root from to h =
    elim (Bool-cases (ltb (length from) (length to) && begins_with from to)) [
      | inl inside ↦ absurd (err_ne_ok (rw inside at h))
      | inr free ↦
          let (r, taken, added) = >>=-eq-ok (patch_remove root from) _ (rw free at h) in
          omega (
            arith,
            nodes-patch_remove root from {taken = r.0} {after = r.1} taken,
            nodes-patch_add r.1 to r.0 added,
          )
    ]
