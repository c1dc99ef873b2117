-- ===== src/DeepPath.antt =====
-- Reading and writing deep in a document by a slash separated path: `walk`, `at`, `set`,
-- `contains`, `is_enabled`, `segment` and `empty_collection_json` of src/script_util.rs.
pub mod ReadBack
pub mod Failures
pub mod Segments
use programmable_redfish_pro.Prelude.{
  ℕ, zero, suc, ◌+◌, ◌-◌, ◌≡◌, Bool, true, false, ◌&&◌, ◌||◌, Option, none, some, List, [], ◌∷◌,
  Text, lit, text_eq, starts_with, split, parse_usize, length, get_elem?, ltb, leb, if◌then◌else◌,
  Result, ok, err, ok_or, map_err, map_ok, map,
}
use programmable_redfish_pro.Prelude.Optional.{◌>>=◌}
use programmable_redfish_pro.Json.{
  Value, null, num, str, arr, obj, Items, nil, cons, Fields, end, field, count, item, set_item,
  lookup, insert, set_field, value_eq,
}
use programmable_redfish_pro.Scripting.{Scripting}

-- The loop of `walk`, over the pieces of the path.
unfoldable pub walk_from : Value → List Text → Option Value
walk_from node [] = some node
walk_from (arr items) (segment ∷ segments) = do
  index ← parse_usize segment
  next ← item items index
  walk_from next segments
walk_from (obj map) (segment ∷ segments) = do next ← lookup segment map; walk_from next segments
walk_from _ (segment ∷ segments) = none

unfoldable pub walk : Value → Text → Option Value
unfolding split walk_from
walk node path = walk_from node (split b'/' path)

pub data SetError : Type 0 where
  needs_path past_end not_reachable : SetError
  not_json : Text → SetError

-- An object is kept, and anything else is replaced by an empty one.
abbrev pub as_map : Value → Fields
as_map (obj map) = map
as_map _ = end

-- `entry(key).or_insert_with(..)`
unfoldable pub or_insert : Text → Value → Fields → Fields
or_insert key value map = elim (lookup key map) [ none ↦ insert key value map | some v ↦ map ]

-- The write under the last piece of the path.
unfoldable pub set_last : Value → Text → Value → Value
set_last (arr items) last new = elim (parse_usize last) [
  | none ↦ obj (insert last new end)
  | some index ↦
      if ltb index (count items) then arr (set_item items index new) else obj (insert last new end)
]
set_last node last new = obj (insert last new (as_map node))

-- The object under a piece that is not the last, where `into` sets the rest of the path.
unfoldable pub set_under : (Value → Result SetError Value) → Text → Fields → Result SetError Value
unfolding or_insert
set_under into segment map =
    let there = or_insert segment (obj end) map in
    elim (lookup segment there) [
      | none ↦ err not_reachable
      | some child ↦ map_ok (λ child'. obj (set_field segment child' there)) (into child)
    ]

unfoldable pub set_at_index : (Value → Result SetError Value) → ℕ → Items → Result SetError Value
set_at_index into index items = elim (item items index) [
  | none ↦ err past_end
  | some child ↦ map_ok (λ child'. arr (set_item items index child')) (into child)
]

-- One round of the loop of `set`.
unfoldable pub set_step : (Value → Result SetError Value) → Value → Text → Result SetError Value
unfolding set_under set_at_index
set_step into (arr items) segment = elim (parse_usize segment) [
  | none ↦ set_under into segment end
  | some index ↦ set_at_index into index items
]
set_step into node segment = set_under into segment (as_map node)

unfoldable pub set_from : Value → List Text → Value → Result SetError Value
unfolding set_step set_last
set_from node [] new = err needs_path
set_from node (last ∷ []) new = ok (set_last node last new)
set_from node (segment ∷ (next ∷ more)) new =
    set_step (λ child. set_from child (next ∷ more) new) node segment

unfoldable pub set_path : Value → Text → Value → Result SetError Value
unfolding set_from split
set_path json [] new = err needs_path
set_path json (x ∷ path) new = set_from json (split b'/' (x ∷ path)) new

-- `Vec::contains`
unfoldable pub contains_item : Items → Value → Bool
contains_item nil wanted = false
contains_item (cons v vs) wanted = value_eq v wanted || contains_item vs wanted

unfoldable pub contains_value : Value → Value → Bool
unfolding contains_item
contains_value (arr items) wanted = contains_item items wanted
contains_value _ wanted = false

abbrev pub to_ascii_lowercase : Text → Text
to_ascii_lowercase s = map (λ b. if leb b'A' b && leb b b'Z' then b + 32 else b) s

-- `str::contains`
unfoldable pub contains_text : Text → Text → Bool
contains_text needle [] = starts_with needle []
contains_text needle (x ∷ s) = starts_with needle (x ∷ s) || contains_text needle s

unfoldable pub is_enabled : Value → Bool
unfolding walk contains_text lit
is_enabled json = elim (walk json (lit "Status/State")) [
  | some (str state) ↦ contains_text (lit "enabled") (to_ascii_lowercase state)
  | _ ↦ false
]

unfoldable pub empty_collection_json : Text → Text → Value
unfolding lit insert
empty_collection_json id name = obj (
    insert (lit "@odata.id") (str id) (
      insert (lit "Name") (str name)
        (insert (lit "Members") (arr nil) (insert (lit "Members@odata.count") (num 0) end))))

-- A signed index: `negsuc n` is -(n + 1).
pub data ℤ : Type 0 where
  pos : ℕ → ℤ
  negsuc : ℕ → ℤ

-- `checked_sub`
abbrev pub checked_sub : ℕ → ℕ → Option ℕ
checked_sub a b = if leb b a then some (a - b) else none

unfoldable pub segment : Text → ℤ → Option Text
unfolding split
segment path (pos n) = get_elem? (split b'/' path) n
segment path (negsuc n) = do
  index ← checked_sub (length (split b'/' path)) (suc n)
  get_elem? (split b'/' path) index

module _ (scripting : Scripting) where
  open scripting use {Script, to_json, of_json}

  -- `at`, `set`, `contains` and `is_enabled` as a script calls them.
  unfoldable pub at : Script → Text → Result Text (Option Script)
  at value path = elim (to_json value) [
    | err e ↦ err e
    | ok json ↦ elim (walk json path) [ none ↦ ok none | some found ↦ map_ok some (of_json found) ]
  ]

  unfoldable pub set : Script → Text → Script → Result SetError Script
  set value path new = elim (map_err not_json (to_json value)) [
    | err e ↦ err e
    | ok json ↦ elim (map_err not_json (to_json new)) [
      | err e ↦ err e
      | ok new' ↦ elim (set_path json path new') [
        | err e ↦ err e
        | ok json' ↦ map_err not_json (of_json json')
      ]
    ]
  ]

  unfoldable pub contains : Script → Script → Result Text Bool
  unfolding contains_value
  contains list wanted = elim (to_json list) [
    | err e ↦ err e
    | ok list' ↦ map_ok (contains_value list') (to_json wanted)
  ]

  unfoldable pub is_script_enabled : Script → Result Text Bool
  unfolding is_enabled
  is_script_enabled value = map_ok is_enabled (to_json value)

  unfoldable pub empty_collection : Text → Text → Result Text Script
  unfolding empty_collection_json
  empty_collection id name = of_json (empty_collection_json id name)
