-- ===== src/Examples/Asking.antt =====
-- A BMC that answers every request with the same collection of one member.
use programmable_redfish_pro.Prelude.{ℕ, suc, ◌≡◌, refl, true, [], ◌∷◌, lit, text_eq, ok}
use programmable_redfish_pro.Json.{Value, str, arr, obj, nil, cons, end, field, lookup}
use programmable_redfish_pro.Routes.{holds}
use programmable_redfish_pro.Bmc.{Upstream, Ids, choose_ids}
use programmable_redfish_pro.Bmc.Listed.{choose_ids-holds}

abbrev collection : Value
unfolding lit
collection = obj (
    field (lit "Members")
      (arr (cons (obj (field (lit "@odata.id") (str (lit "/redfish/v1/Systems/1/")) end)) nil)) end)

-- It counts the requests.
abbrev counting : Upstream
counting = record { World = ℕ; get_json = λ path w. (ok collection, suc w) }

abbrev ones : Ids
unfolding lit
ones = record { system = lit "1"; manager = lit "1" }

choose_ids-holds_example : holds (lit "1" ∷ []) (lit "1") ≡ true
unfolding lit choose_ids lookup text_eq
choose_ids-holds_example = choose_ids-holds counting (lit "1" ∷ []) 0 ones refl

-- Its member has nothing but a link, so the expansion asks for it.
abbrev expanded : Value
unfolding lit
expanded = obj (field (lit "Members") (arr (cons collection nil)) end)
