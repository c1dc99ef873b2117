-- ===== src/Merge/Idempotent.antt =====
-- Applying a merge patch twice is applying it once.
use mathlib.Core.Path.{subst}
use mathlib.Core.Option.{some-injective}
use programmable_redfish_pro.Prelude.{
  ◌≡◌, refl, ap, ◌∙◌, none, some, Option, Option-cases, inl, inr, Text, Bool-cases, text_eq,
}
use programmable_redfish_pro.Json.{
  Value, null, obj, Fields, end, field, lookup, IsOrdered, HasOrderedKeys, HasOrderedFields,
}
use programmable_redfish_pro.Json.Order.Keeps.{lookup-IsOrdered}
use programmable_redfish_pro.Merge.{merge_json, merge_fields, fields_of, or_null}
use programmable_redfish_pro.Merge.Pointwise.{
  merged, lookup-merge_fields, merge_fields-HasOrderedKeys, fields_ext,
}

-- Patching twice with `p` is patching once, on any ordered document.
abbrev Settles : Value → Type 0
Settles p = (t : Value) → IsOrdered t → merge_json (merge_json t p) p ≡ merge_json t p

abbrev AllSettle : Fields → Type 0
AllSettle end = Unit
AllSettle (field k v fs) = Settles v × AllSettle fs

settle_at : (k : Text) (fs : Fields) {v : Value} → AllSettle fs → lookup k fs ≡ some v → Settles v
unfolding lookup
settle_at k end a h = cc
settle_at k (field j w fs) a h = elim (Bool-cases (text_eq j k)) [
  | inl same ↦ subst Settles (some-injective _ _ (rw same at h)) a.0
  | inr other ↦ settle_at k fs a.1 (rw other at h)
]

fields_of-ordered :
    (t : Value) → IsOrdered t → HasOrderedKeys (fields_of t) × HasOrderedFields (fields_of t)
unfolding IsOrdered
fields_of-ordered (obj map) o = o
fields_of-ordered null o = (tt, tt)
fields_of-ordered _ o = (tt, tt)

or_null-IsOrdered :
    (k : Text) (map : Fields) → HasOrderedFields map → IsOrdered (or_null (lookup k map))
or_null-IsOrdered k map o = elim (Option-cases (lookup k map)) [
  | inl absent ↦ rw absent (unfold IsOrdered in tt)
  | inr (v, there) ↦ rw there (lookup-IsOrdered k map there o)
]

merged-Settles :
    (k : Text) (map : Fields) (new : Option Value)
    → HasOrderedFields map
    → ((v : Value) → new ≡ some v → Settles v)
    → merged (merged (lookup k map) new) new ≡ merged (lookup k map) new
merged-Settles k map none o s = refl
merged-Settles k map (some null) o s = refl
merged-Settles k map (some v) o s =
    ap some (s v refl (or_null (lookup k map)) (or_null-IsOrdered k map o))

fields_settle :
    (patch : Fields)
    → HasOrderedKeys patch
    → AllSettle patch
    → (map : Fields) → HasOrderedKeys map
    → HasOrderedFields map
    → merge_fields (merge_fields map patch) patch ≡ merge_fields map patch
fields_settle patch op a map om fm =
    let once = merge_fields-HasOrderedKeys map patch om in
    fields_ext (merge_fields (merge_fields map patch) patch) (merge_fields map patch)
      (merge_fields-HasOrderedKeys (merge_fields map patch) patch once) once
      λ k.
        lookup-merge_fields k (merge_fields map patch) patch op
        ∙ rw (lookup-merge_fields k map patch op)
            (merged-Settles k map (lookup k patch) fm (λ v there. settle_at k patch a there))

mutual
  unfolding merge_json IsOrdered

  settles : (p : Value) → IsOrdered p → Settles p
  settles (obj patch) o t ot = ap obj (
      fields_settle patch o.0 (all_settle patch o.1) (fields_of t) (fields_of-ordered t ot).0
        (fields_of-ordered t ot).1)
  settles null o t ot = refl
  settles _ o t ot = refl

  all_settle : (fs : Fields) → HasOrderedFields fs → AllSettle fs
  all_settle end o = tt
  all_settle (field k v fs) o = (settles v o.0, all_settle fs o.1)

-- A second application of a merge patch changes nothing, where the keys of target and patch are in
-- order.
pub merge_json_idempotent :
    (target patch : Value)
    → IsOrdered target
    → IsOrdered patch
    → merge_json (merge_json target patch) patch ≡ merge_json target patch
merge_json_idempotent target patch ot op = settles patch op target ot
