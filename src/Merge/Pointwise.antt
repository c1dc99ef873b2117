-- ===== src/Merge/Pointwise.antt =====
-- A merge, key by key, as RFC 7386 describes it.
use mathlib.Core.Path.{subst}
use mathlib.Core.Option.{some-injective}
use programmable_redfish_pro.Prelude.{
  ◌≡◌, refl, sym, ap, ◌∙◌, Bool-cases, true, Option, none, some, Text, text_eq, text_eq_iff,
  text_eq_refl, text_lt, inl, inr, if◌then◌else◌,
}
use programmable_redfish_pro.Json.{
  Value, null, Fields, end, field, lookup, insert, remove, lookup-insert, lookup-remove,
  HasOrderedKeys, Above, Above-trans, lookup-Above, text_lt_connex, insert-HasOrderedKeys,
  remove-HasOrderedKeys,
}
use programmable_redfish_pro.Merge.{merge_json, merge_fields, or_null}

-- The value of one key, from what the target and the patch hold there.
abbrev pub merged : Option Value → Option Value → Option Value
merged old none = old
merged old (some null) = none
merged old (some value) = some (merge_json (or_null old) value)

-- One round of the loop, whatever the value.
abbrev pub put_merged : Text → Value → Fields → Fields
put_merged key null map = remove key map
put_merged key value map = insert key (merge_json (or_null (lookup key map)) value) map

pub merge_fields-step :
    (map : Fields) (key : Text) (value : Value) (rest : Fields)
    → merge_fields map (field key value rest) ≡ merge_fields (put_merged key value map) rest
unfolding merge_json
merge_fields-step map key null rest = refl
merge_fields-step map key _ rest = refl

pub lookup-put_merged :
    (j key : Text) (value : Value) (map : Fields)
    → lookup j (put_merged key value map)
      ≡ (if text_eq key j then merged (lookup key map) (some value) else lookup j map)
lookup-put_merged j key null map = lookup-remove key j map
lookup-put_merged j key _ map = lookup-insert key j _ map

-- After a merge with a patch whose keys are in order, every key holds what RFC 7386 says: what the
-- target held if the patch does not name it, nothing if the patch holds null, and else the merge of
-- the two values.
pub lookup-merge_fields :
    (j : Text) (map patch : Fields)
    → HasOrderedKeys patch
    → lookup j (merge_fields map patch) ≡ merged (lookup j map) (lookup j patch)
unfolding merge_json lookup
lookup-merge_fields j map end o = refl
lookup-merge_fields j map (field key value rest) o =
    ap (lookup j) (merge_fields-step map key value rest)
    ∙ lookup-merge_fields j (put_merged key value map) rest o.1
    ∙ rw (lookup-put_merged j key value map) (elim (Bool-cases (text_eq key j)) [
      | inl same ↦
          let e = (text_eq_iff key j).0 same in
          let absent : lookup j rest ≡ none =
            subst (λ (k : Text). lookup k rest ≡ none) e (lookup-Above key rest o.0) in
          rw (same, absent) (ap (λ (k : Text). merged (lookup k map) (some value)) e)
      | inr other ↦ rw other refl
    ])

put_merged-HasOrderedKeys :
    (key : Text) (value : Value) (map : Fields)
    → HasOrderedKeys map
    → HasOrderedKeys (put_merged key value map)
put_merged-HasOrderedKeys key null map o = remove-HasOrderedKeys key map o
put_merged-HasOrderedKeys key _ map o = insert-HasOrderedKeys key _ map o

pub merge_fields-HasOrderedKeys :
    (map patch : Fields) → HasOrderedKeys map → HasOrderedKeys (merge_fields map patch)
unfolding merge_json
merge_fields-HasOrderedKeys map end o = o
merge_fields-HasOrderedKeys map (field key value rest) o =
    rw (merge_fields-step map key value rest) (
      merge_fields-HasOrderedKeys (put_merged key value map) rest
        (put_merged-HasOrderedKeys key value map o))

-- The first key of a map in order is in no map whose keys all come after it.
first_absent :
    (k j : Text) (w : Value) (b : Fields)
    → text_lt k j ≡ true
    → Above j b
    → lookup k (field j w b) ≡ none
first_absent k j w b h above = lookup-Above k (field j w b) (h, Above-trans k j b h above)

same_tail :
    (k : Text) (v w : Value) (a b : Fields)
    → Above k a
    → Above k b
    → ((x : Text) → lookup x (field k v a) ≡ lookup x (field k w b))
    → (x : Text) → lookup x a ≡ lookup x b
unfolding lookup
same_tail k v w a b above_a above_b h x = elim (Bool-cases (text_eq k x)) [
  | inl same ↦
      let e = (text_eq_iff k x).0 same in
      subst (λ (y : Text). lookup y a ≡ lookup y b) e
        (lookup-Above k a above_a ∙ sym (lookup-Above k b above_b))
  | inr other ↦ rw other at (h x)
]

lookup_first : (k : Text) (v : Value) (a : Fields) → lookup k (field k v a) ≡ some v
unfolding lookup
lookup_first k v a = rw (text_eq_refl k) refl

some_ne_none : {v : Value} → some v ≡ none → ⊥
some_ne_none h = cc

-- Maps in order that hold the same at every key are one map.
pub fields_ext :
    (a b : Fields)
    → HasOrderedKeys a
    → HasOrderedKeys b
    → ((k : Text) → lookup k a ≡ lookup k b)
    → a ≡ b
fields_ext end end oa ob h = refl
fields_ext end (field k v b) oa ob h =
    absurd (some_ne_none (sym (lookup_first k v b) ∙ sym (h k) ∙ unfold lookup in refl))
fields_ext (field k v a) end oa ob h =
    absurd (some_ne_none (sym (lookup_first k v a) ∙ h k ∙ unfold lookup in refl))
fields_ext (field k v a) (field j w b) oa ob h = elim (Bool-cases (text_eq k j)) [
  | inl same ↦
      let e = (text_eq_iff k j).0 same in
      let at_k : (x : Text) → lookup x (field k v a) ≡ lookup x (field k w b) =
        λ x. h x ∙ ap (λ (y : Text). lookup x (field y w b)) (sym e) in
      let above : Above k b = subst (λ (y : Text). Above y b) (sym e) ob.0 in
      let tails = fields_ext a b oa.1 ob.1 (same_tail k v w a b oa.0 above at_k) in
      let values = some-injective _ _ (sym (lookup_first k v a) ∙ at_k k ∙ lookup_first k w b) in
      cc (e, tails, values)
  | inr other ↦ elim (Bool-cases (text_lt k j)) [
    | inl before ↦
        absurd (some_ne_none (sym (lookup_first k v a) ∙ h k ∙ first_absent k j w b before ob.0))
    | inr later ↦
        let after = text_lt_connex k j other later in
        absurd
          (some_ne_none (sym (lookup_first j w b) ∙ sym (h j) ∙ first_absent j k v a after oa.0))
  ]
]
