-- ===== src/JsonPatch/Locate/Ordered.antt =====
-- Walking and writing in a document whose keys are in order.
use mathlib.Core.Path.{subst}
use mathlib.Core.Option.{some-injective}
use programmable_redfish_pro.Prelude.{◌≡◌, some, List, [], ◌∷◌, Text, to_option, false}
use programmable_redfish_pro.Prelude.Optional.{>>=-eq-some}
use programmable_redfish_pro.Json.{
  Value, arr, obj, count, item, lookup, IsOrdered, set_field-HasOrderedKeys,
}
use programmable_redfish_pro.Json.Order.Keeps.{
  item-IsOrdered, lookup-IsOrdered, set_item-AreOrdered, set_field-HasOrderedFields,
}
use programmable_redfish_pro.JsonPatch.Pointer.{array_index}
use programmable_redfish_pro.JsonPatch.Locate.{resolve, resolve_mut, Slot}
use programmable_redfish_pro.JsonPatch.Locate.Lens.{item_step, field_step}

-- What stands in an ordered document is ordered.
pub resolve-IsOrdered :
    (root : Value) (tokens : List Text) {v : Value}
    → IsOrdered root
    → resolve root tokens ≡ some v
    → IsOrdered v
unfolding resolve IsOrdered
resolve-IsOrdered root [] o h = subst IsOrdered (some-injective _ _ h) o
resolve-IsOrdered (arr items) (token ∷ tokens) o h =
    let (i, p, h') = >>=-eq-some (to_option (array_index token (count items) false)) _ h in
    let (node, q, h'') = >>=-eq-some (item items i) _ h' in
    resolve-IsOrdered node tokens (item-IsOrdered items i q o) h''
resolve-IsOrdered (obj map) (token ∷ tokens) o h =
    let (node, q, h') = >>=-eq-some (lookup token map) _ h in
    resolve-IsOrdered node tokens (lookup-IsOrdered token map q o.1) h'
resolve-IsOrdered _ (token ∷ tokens) o h = cc

-- Writing an ordered value keeps the document ordered.
pub write-IsOrdered :
    (root : Value) (tokens : List Text) (v : Value) {s : Slot}
    → IsOrdered root
    → IsOrdered v
    → resolve_mut root tokens ≡ some s
    → IsOrdered (s.write v)
unfolding resolve_mut IsOrdered
write-IsOrdered root [] v o p h =
    subst (λ (x : Slot). IsOrdered (x.write v)) (some-injective _ _ h) p
write-IsOrdered (arr items) (token ∷ tokens) v o p h =
    let t = item_step items token tokens h in
    let node = item-IsOrdered items t.index t.found o in
    subst (λ (x : Slot). IsOrdered (x.write v)) t.same
      (set_item-AreOrdered items t.index (t.inner.write v)
        (write-IsOrdered t.node tokens v node p t.rest) o)
write-IsOrdered (obj map) (token ∷ tokens) v o p h =
    let t = field_step map token tokens h in
    let node = lookup-IsOrdered token map t.found o.1 in
    subst (λ (x : Slot). IsOrdered (x.write v)) t.same
      (
        set_field-HasOrderedKeys token (t.inner.write v) map o.0,
        set_field-HasOrderedFields token (t.inner.write v) map
            (write-IsOrdered t.node tokens v node p t.rest) o.1,
      )
write-IsOrdered _ (token ∷ tokens) v o p h = cc
