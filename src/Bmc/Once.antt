-- ===== src/Bmc/Once.antt =====
-- The ids of a request are found once.
use programmable_redfish_pro.Prelude.{
  ◌≡◌, refl, ap, Option, none, some, Result, ok, err, err_ne_ok, ok_injective,
}
use programmable_redfish_pro.Bmc.{BmcError, Upstream, Ids, cached, fetch_ids, resolve_ids}

module _ (upstream : Upstream) where
  open upstream use {World}

  kept :
      (answer : Result BmcError Ids) (ids : Ids)
      → answer ≡ ok ids
      → cached upstream answer ≡ some ids
  kept (ok i) ids h = ap some (ok_injective h)
  kept (err e) ids h = absurd (err_ne_ok h)

  -- When `resolve_ids` has succeeded, it answers the same for the rest of the request, whatever the
  -- BMC has become, and asks it nothing.
  pub resolve_ids-again :
      (cache : Option Ids) (w later : World) (ids : Ids)
      → (resolve_ids upstream cache w).0 ≡ ok ids
      → resolve_ids upstream (resolve_ids upstream cache w).1.0 later ≡ (ok ids, (some ids, later))
  unfolding resolve_ids
  resolve_ids-again (some i) w later ids h = rw (ok_injective h) refl
  resolve_ids-again none w later ids h = rw (kept (fetch_ids upstream w).0 ids h) refl
