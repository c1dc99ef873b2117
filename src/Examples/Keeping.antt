-- ===== src/Examples/Keeping.antt =====
-- A store with one key.
use programmable_redfish_pro.Prelude.{
  ℕ, zero, suc, ◌≤◌, ◌≡◌, ◌↔◌, refl, true, false, some, none, [], ◌∷◌, lit, text_eq, ok, err,
  if◌then◌else◌, arith,
}
use programmable_redfish_pro.Json.{Value, null, Fields, end, field, lookup, insert}
use programmable_redfish_pro.Scripting.{Scripting}
use programmable_redfish_pro.Store.{Store, check_key, lock, size, get, set, found, full, max_keys}
use programmable_redfish_pro.Store.Capacity.{IsValid}
use programmable_redfish_pro.Store.History.{
  new_store, Reachable, start, next, sets, turns, Reachable-IsValid,
}
use programmable_redfish_pro.Store.Reads.{get-set, set-full_iff}

-- Scripts that are JSON themselves, each four bytes long.
abbrev plain : Scripting
plain = record { Script = Value; to_json = ok; of_json = ok; encode = λ v. ok (1 ∷ 2 ∷ 3 ∷ 4 ∷ []) }

abbrev opened : Store
opened = record { handling = true; poisoned_lock = false; entries = end }

abbrev one_kept : Store
unfolding lit
one_kept = record { handling = true; poisoned_lock = false; entries = field (lit "k") null end }

one_kept-Reachable : Reachable plain one_kept
unfolding set check_key lock insert lookup lit
one_kept-Reachable =
    next {store = opened} (next {store = new_store} start (turns true false refl))
      (sets (lit "k") null refl)

Reachable-IsValid_example : IsValid plain one_kept
Reachable-IsValid_example = Reachable-IsValid plain one_kept-Reachable

get-set_example :
    get plain (lit "k") one_kept
    ≡ (if text_eq (lit "k") (lit "k") then found plain (some null) else get plain (lit "k") opened)
unfolding set check_key lock insert lookup lit
get-set_example = get-set plain (lit "k") (lit "k") null null opened one_kept refl refl refl

-- As many entries as the number says.
abbrev many : ℕ → Fields → Fields
many zero fs = fs
many (suc n) fs = field (lit "m") null (many n fs)

abbrev packed : Store
packed = record { handling = true; poisoned_lock = false; entries = many max_keys end }

set-full_iff_example :
    (set plain (lit "k") null packed ≡ err full)
    ↔ ((max_keys ≤ size packed.entries) × (lookup (lit "k") packed.entries ≡ none))
unfolding check_key lit
set-full_iff_example =
    set-full_iff plain (lit "k") null packed null (1 ∷ 2 ∷ 3 ∷ 4 ∷ [])
      (record { inside = refl; sound = refl }) refl refl refl (omega arith)
