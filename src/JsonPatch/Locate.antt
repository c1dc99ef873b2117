-- ===== src/JsonPatch/Locate.antt =====
-- Walking a document along tokens: `resolve` and `resolve_mut` of src/script_util.rs.
pub mod Lens
pub mod Ordered
use programmable_redfish_pro.Prelude.{false, Option, none, some, List, [], ◌∷◌, Text, to_option}
use programmable_redfish_pro.Prelude.Optional.{◌>>=◌}
use programmable_redfish_pro.Json.{Value, arr, obj, count, item, set_item, lookup, set_field}
use programmable_redfish_pro.JsonPatch.Pointer.{array_index}

unfoldable pub resolve : Value → List Text → Option Value
resolve root [] = some root
resolve (arr items) (token ∷ tokens) = do
  index ← to_option (array_index token (count items) false)
  node ← item items index
  resolve node tokens
resolve (obj map) (token ∷ tokens) = do node ← lookup token map; resolve node tokens
resolve _ (token ∷ tokens) = none

-- A `&mut Value` into a document: what stands there, and the document with another value there.
pub record Slot : Type 0 where
  pub here : Value
  pub write : Value → Value

abbrev pub under : (Value → Value) → Slot → Slot
under f s = record { here = s.here; write = λ w. f (s.write w) }

unfoldable pub resolve_mut : Value → List Text → Option Slot
resolve_mut root [] = some (record { here = root; write = λ w. w })
resolve_mut (arr items) (token ∷ tokens) = do
  index ← to_option (array_index token (count items) false)
  node ← item items index
  slot ← resolve_mut node tokens
  some (under (λ w. arr (set_item items index w)) slot)
resolve_mut (obj map) (token ∷ tokens) = do
  node ← lookup token map
  slot ← resolve_mut node tokens
  some (under (λ w. obj (set_field token w map)) slot)
resolve_mut _ (token ∷ tokens) = none
