-- ===== src/Http/Rewrite.antt =====
-- Which authorities are the target, and what becomes of the strings of a JSON body: `is_target`,
-- `rewrite_text` and
-- `rewrite_value` of src/http.rs. A panic is `none`.

pub mod Headers
pub mod Shown
pub mod Hidden
pub mod Target
pub mod Values
use programmable_redfish_pro.Http.Address.{SocketAddrV4, ip_text}
use programmable_redfish_pro.Prelude.{
  ℕ, Bool, true, false, ◌&&◌, ◌||◌, not, Option, none, some, List, [], ◌∷◌, ◌++◌, Text, lit,
  text_eq, is_empty, is_ascii_digit, split, all, ltb, leb, ◌==◌, if◌then◌else◌, ◌+◌, Result, ok,
  err,
}
use programmable_redfish_pro.Prelude.Optional.{◌>>=◌}
use programmable_redfish_pro.Json.{
  Value, null, bool, num, str, arr, obj, Items, nil, cons, Fields, end, field,
}
use programmable_redfish_pro.DeepPath.{to_ascii_lowercase, contains_text}
use programmable_redfish_pro.Http.{eq_ignore_ascii_case}
use programmable_redfish_pro.Http.Swap.{sep, swap_authorities}

-- `rsplit_once`: what stands before the last such byte, and what stands after it.
unfoldable pub rsplit_once : ℕ → Text → Option (Text × Text)
rsplit_once c [] = none
rsplit_once c (x ∷ s) = elim (rsplit_once c s) [
  | some (front, back) ↦ some (x ∷ front, back)
  | none ↦ if x == c then some ([], s) else none
]

-- What stands before a port, or all of it where there is no port.
unfoldable pub host_of : Text → Text
unfolding rsplit_once
host_of authority = elim (rsplit_once b':' authority) [
  | some (host, port) ↦ if not (is_empty port) && all is_ascii_digit port then host else authority
  | none ↦ authority
]

unfoldable pub is_target : (authority : Text) → (target : SocketAddrV4) → Bool
unfolding host_of ip_text
is_target authority target = eq_ignore_ascii_case (host_of authority) (ip_text target.ip)

unfoldable pub rewrite_text : (target : SocketAddrV4) → (base text : Text) → Option Text
rewrite_text target base text =
    if contains_text sep text
    then swap_authorities base text (λ a. is_target a target)
    else some text

module _ (target : SocketAddrV4) (base : Text) where
  unfoldable mutual
    pub rewrite_value : Value → Option Value
    rewrite_value (str s) =
        let rewritten = rewrite_text target base s in
        if contains_text sep s then (do t ← rewritten; some (str t)) else some (str s)
    rewrite_value (arr items) = do items' ← rewrite_items items; some (arr items')
    rewrite_value (obj map) = do map' ← rewrite_fields map; some (obj map')
    rewrite_value value = some value

    pub rewrite_items : Items → Option Items
    rewrite_items nil = some nil
    rewrite_items (cons v vs) = do v' ← rewrite_value v; vs' ← rewrite_items vs; some (cons v' vs')

    pub rewrite_fields : Fields → Option Fields
    rewrite_fields end = some end
    rewrite_fields (field key v fs) = do
      v' ← rewrite_value v
      fs' ← rewrite_fields fs
      some (field key v' fs')
