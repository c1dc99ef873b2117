-- ===== src/Store.antt =====
-- src/script_store.rs: what scripts keep between requests. The `HashMap` is never iterated but by
-- `retain`, so the order of its entries is not seen, and they are kept as an ordered map of `Json`.
pub mod Capacity
pub mod History
pub mod Reads
use programmable_redfish_pro.Prelude.{
  ℕ, suc, ◌+◌, ◌-◌, ◌*◌, ◌^◌, Bool, true, false, not, ◌&&◌, Option, none, some, [], ◌∷◌, Text,
  starts_with, length, ltb, leb, if◌then◌else◌, Result, ok, err, map_err, map_ok, ◌>>=◌, ◌>>◌,
}
use programmable_redfish_pro.Json.{Value, Fields, end, field, lookup, insert, remove}
use programmable_redfish_pro.Scripting.{Scripting}

abbrev pub max_keys : ℕ
max_keys = 1024

abbrev pub max_key_len : ℕ
max_key_len = 256

abbrev pub max_value_bytes : ℕ
max_value_bytes = 64 * 1024

-- `HashMap::len` and `HashMap::retain`.
abbrev pub size : Fields → ℕ
size end = 0
size (field k v fs) = suc (size fs)

unfoldable pub retain : (Text → Bool) → Fields → Fields
retain keep end = end
retain keep (field k v fs) = let rest = retain keep fs in if keep k then field k v rest else rest

abbrev pub is_some : {A : Type 0} → Option A → Bool
is_some none = false
is_some (some a) = true

abbrev or_fallback : {A : Type 0} → Option A → A → A
or_fallback none a = a
or_fallback (some b) a = b

pub data StoreError : Type 0 where
  empty_key no_request poisoned full overflowed : StoreError
  long_key large_value : ℕ → StoreError
  not_serialisable not_encodable not_scriptable : Text → StoreError

-- Where a helper is called: inside a request handler or not, with the lock poisoned or not.
pub record Store : Type 0 where
  pub handling : Bool
  pub poisoned_lock : Bool
  pub entries : Fields

unfoldable pub check_key : Text → Result StoreError Unit
check_key [] = err empty_key
check_key (x ∷ s) =
    if ltb max_key_len (length (x ∷ s)) then err (long_key (length (x ∷ s))) else ok tt

-- `request_ctx` and the `lock` behind it.
unfoldable pub lock : Store → Result StoreError Fields
lock store =
    if not store.handling
    then err no_request
    else if store.poisoned_lock
    then err poisoned
    else ok store.entries

-- `Store::len`, which a poisoned lock makes 0.
unfoldable pub len : Store → ℕ
len store = if store.poisoned_lock then 0 else size store.entries

unfoldable pub contains : Text → Store → Result StoreError Bool
unfolding check_key lock
contains key store = do check_key key; entries ← lock store; ok (is_some (lookup key entries))

-- An error leaves the store as it was.
unfoldable pub remove_key : Text → Store → Result StoreError (Bool × Store)
unfolding check_key lock
remove_key key store = do
  check_key key
  entries ← lock store
  ok (is_some (lookup key entries), record store { entries = remove key entries })

-- The count is made after the entries have gone, so it stands beside the new store.
unfoldable pub remove_prefix : Text → Store → Result StoreError ℕ × Store
unfolding check_key lock retain
remove_prefix prefix store = elim (do check_key prefix; lock store) [
  | err e ↦ (err e, store)
  | ok entries ↦
      let kept = retain (λ key. not (starts_with prefix key)) entries in
      let gone = size entries - size kept in
      (if leb (2 ^ 63) gone then err overflowed else ok gone, record store { entries = kept })
]

module _ (scripting : Scripting) where
  open scripting use {Script, to_json, of_json, encode}

  unfoldable pub found : Option Value → Result StoreError (Option Script)
  found none = ok none
  found (some value) = map_err not_scriptable (map_ok some (of_json value))

  unfoldable pub get : Text → Store → Result StoreError (Option Script)
  unfolding check_key lock found
  get key store = do check_key key; entries ← lock store; found (lookup key entries)

  unfoldable pub get_or : Text → Script → Store → Result StoreError Script
  unfolding get
  get_or key fallback store = do value ← get key store; ok (or_fallback value fallback)

  -- An error leaves the store as it was.
  unfoldable pub set : Text → Script → Store → Result StoreError Store
  unfolding check_key lock
  set key value store = do
    check_key key
    json ← map_err not_serialisable (to_json value)
    encoded ← map_err not_encodable (encode json)
    if ltb max_value_bytes (length encoded) then err (large_value (length encoded)) else (do
      entries ← lock store
      if leb max_keys (size entries) && not (is_some (lookup key entries))
          then err full
          else ok (record store { entries = insert key json entries }))
