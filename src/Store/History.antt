-- ===== src/Store/History.antt =====
-- Every sequence of calls that scripts can make, in any order and from any number of requests.
use mathlib.Core.Path.{subst}
use programmable_redfish_pro.Prelude.{◌≡◌, ◌≢◌, Bool, Text, ok, err, false, arith}
use programmable_redfish_pro.Json.{end}
use programmable_redfish_pro.Scripting.{Scripting}
use programmable_redfish_pro.Store.{Store, set, remove_key, remove_prefix, overflowed}
use programmable_redfish_pro.Store.Capacity.{
  IsValid, set-IsValid, remove_key-IsValid, remove_prefix-IsValid, remove_prefix-ne-overflowed,
}

-- The store of a process that has just started: `Store::new`.
abbrev pub new_store : Store
new_store = record { handling = false; poisoned_lock = false; entries = end }

module _ (scripting : Scripting) where
  open scripting use {Script}

  -- A call that changes the store, or a change of who calls it: a request begins or ends, or a
  -- holder of the lock panics. Calls that fail, or only read, leave the store as it is.
  pub data Call : Store → Store → Type 0 where
    sets :
        {store after : Store} (key : Text) (value : Script)
        → set scripting key value store ≡ ok after
        → Call store after
    removes :
        {store after : Store} {there : Bool} (key : Text)
        → remove_key key store ≡ ok (there, after)
        → Call store after
    removes_prefix :
        {store after : Store} (prefix : Text)
        → (remove_prefix prefix store).1 ≡ after
        → Call store after
    turns :
        {store after : Store} (handling poisoned : Bool)
        → record store { handling = handling; poisoned_lock = poisoned } ≡ after
        → Call store after

  pub data Reachable : Store → Type 0 where
    start : Reachable new_store
    next : {store after : Store} → Reachable store → Call store after → Reachable after

  Call-IsValid :
      {store after : Store} → Call store after → IsValid scripting store → IsValid scripting after
  Call-IsValid (sets {store} key value h) v = set-IsValid scripting key value store v h
  Call-IsValid (removes {store} key h) v = remove_key-IsValid scripting key store v h
  Call-IsValid (removes_prefix {store} prefix h) v =
      subst (IsValid scripting) h (remove_prefix-IsValid scripting prefix store v)
  Call-IsValid (turns handling poisoned h) v =
      subst (IsValid scripting) h (record { ordered = v.ordered; few = v.few; fit = v.fit })

  -- In every store that calls of scripts can reach, in any order and with any of them failing, there
  -- are at most 1024 keys, each of them once and of 1 to 256 bytes, each with a value of at most
  -- 64 KiB.
  pub Reachable-IsValid : {store : Store} → Reachable store → IsValid scripting store
  Reachable-IsValid start = record { ordered = tt; few = omega arith; fit = tt }
  Reachable-IsValid (next r c) = Call-IsValid c (Reachable-IsValid r)

  -- In a store that scripts can reach, the count that `remove_prefix` returns never overflows.
  pub Reachable-remove_prefix :
      {store : Store} (prefix : Text)
      → Reachable store
      → (remove_prefix prefix store).0 ≢ err overflowed
  Reachable-remove_prefix {store} prefix r =
      remove_prefix-ne-overflowed prefix store (Reachable-IsValid r).few
