-- ===== src/Examples/Paths.antt =====
-- Deep paths, merge patches and specificities of small inputs.
use programmable_redfish_pro.Prelude.{◌≡◌, refl, some, lit, text_eq, text_lt, parse_usize}
use programmable_redfish_pro.Json.{
  Value, null, str, arr, obj, nil, cons, Fields, end, field, lookup, insert, set_field, IsOrdered,
}
use programmable_redfish_pro.Merge.{merge_json, merge_fields}
use programmable_redfish_pro.Merge.Pointwise.{merged, lookup-merge_fields}
use programmable_redfish_pro.Merge.Idempotent.{merge_json_idempotent}
use programmable_redfish_pro.DeepPath.{walk, set_path}
use programmable_redfish_pro.DeepPath.ReadBack.{walk-set_path}

-- {"Id":"1","Old":"x"}
abbrev target_fields : Fields
unfolding lit
target_fields = field (lit "Id") (str (lit "1")) (field (lit "Old") (str (lit "x")) end)

-- {"New":"y","Old":null}
abbrev patch_fields : Fields
unfolding lit
patch_fields = field (lit "New") (str (lit "y")) (field (lit "Old") null end)

lookup-merge_fields_example :
    lookup (lit "Old") (merge_fields target_fields patch_fields)
    ≡ merged (lookup (lit "Old") target_fields) (lookup (lit "Old") patch_fields)
unfolding lit text_lt
lookup-merge_fields_example =
    lookup-merge_fields (lit "Old") target_fields patch_fields ((refl, tt), (tt, tt))

merge_json_idempotent_example :
    merge_json (merge_json (obj target_fields) (obj patch_fields)) (obj patch_fields)
    ≡ merge_json (obj target_fields) (obj patch_fields)
unfolding lit text_lt IsOrdered
merge_json_idempotent_example =
    merge_json_idempotent (obj target_fields) (obj patch_fields)
      (((refl, tt), (tt, tt)), (tt, (tt, tt))) (((refl, tt), (tt, tt)), (tt, (tt, tt)))

abbrev listed : Value
unfolding lit
listed = obj (field (lit "List") (arr (cons null nil)) end)

abbrev listed_after : Value
unfolding lit
listed_after = obj (field (lit "List") (arr (cons (obj (field (lit "A") null end)) nil)) end)

walk-set_path_example : walk listed_after (lit "List/0/A") ≡ some null
unfolding lit set_path lookup text_eq parse_usize set_field insert
walk-set_path_example = walk-set_path listed (lit "List/0/A") null refl
