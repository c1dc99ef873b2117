-- ===== src/Bmc/Listed.antt =====
-- Which system is chosen.
use mathlib.Core.Path.{subst}
use programmable_redfish_pro.Prelude.{
  ◌≡◌, refl, ap, ◌∙◌, true, Bool-cases, Option-cases, Result-cases, inl, inr, Option, some, List,
  [], ◌∷◌, ◌++◌, Text, lit, text_eq, text_eq_refl, text_eq_iff, arith, ok, err_ne_ok, ok_injective,
}
use programmable_redfish_pro.Json.{Value}
use programmable_redfish_pro.Routes.{holds}
use programmable_redfish_pro.Bmc.{
  Upstream, Ids, find_id, preferred_of, others, system_chosen, has_key, find_bios, find_manager,
  choose_ids,
}

some_injective : {s t : Text} → ◌≡◌ {A = Option Text} (some s) (some t) → s ≡ t
some_injective h = cc

find_id-holds :
    (wanted : Text) (ids : List Text) (id : Text)
    → find_id wanted ids ≡ some id
    → holds ids id ≡ true
unfolding find_id
find_id-holds wanted [] id h = cc
find_id-holds wanted (x ∷ ids) id h = elim (Bool-cases (text_eq x wanted)) [
  | inl here ↦
      let same = some_injective (rw (find_id, here) at h) in rw (same, text_eq_refl id) refl
  | inr there ↦ ground (arith, find_id-holds wanted ids id (rw (find_id, there) at h))
]

preferred_of-holds :
    (systems : List Text) (id : Text) → preferred_of systems ≡ some id → holds systems id ≡ true
unfolding preferred_of find_id
preferred_of-holds [] id h = cc
preferred_of-holds (x ∷ systems) id h =
    elim (Option-cases (find_id (lit "System_0") (x ∷ systems))) [
      | inl missed ↦
          let same = some_injective (rw (preferred_of, missed) at h) in
          rw (same, text_eq_refl id) refl
      | inr (found, e) ↦
          let same = some_injective (rw (preferred_of, e) at h) in
          find_id-holds (lit "System_0") (x ∷ systems) id (e ∙ ap some same)
    ]

others-holds :
    (preferred : Text) (systems : List Text) (id : Text)
    → holds (others preferred systems) id ≡ true
    → holds systems id ≡ true
unfolding others
others-holds preferred [] id h = h
others-holds preferred (x ∷ systems) id h = elim (Bool-cases (text_eq x preferred)) [
  | inl skipped ↦ ground (arith, others-holds preferred systems id (rw skipped at h))
  | inr kept ↦ ground (arith, others-holds preferred systems id, rw kept at h)
]

pair_same :
    {s t : Text} {v w : Value} → ◌≡◌ {A = Option (Text × Value)} (some (s, v)) (some (t, w)) → s ≡ t
pair_same h = ground arith

-- A candidate is the preferred system or one of the others, so it is listed.
candidate-holds :
    (systems : List Text) (preferred id : Text)
    → holds systems preferred ≡ true
    → holds (preferred ∷ others preferred systems) id ≡ true
    → holds systems id ≡ true
candidate-holds systems preferred id listed h = elim (Bool-cases (text_eq preferred id)) [
  | inl same ↦
      subst (λ (t : Text). holds systems t ≡ true) ((text_eq_iff preferred id).0 same) listed
  | inr other ↦ others-holds preferred systems id (rw other at h)
]

module _ (upstream : Upstream) where
  open upstream use {World, get_json}

  find_bios-holds :
      (ids : List Text) (w : World) {id : Text} {system : Value}
      → (find_bios upstream ids w).0 ≡ some (id, system)
      → holds ids id ≡ true
  unfolding find_bios
  find_bios-holds [] w h = cc
  find_bios-holds (x ∷ ids) w {id} h =
      let answer = get_json (lit "/redfish/v1/Systems/" ++ x) w in
      elim (Result-cases answer.0) [
        | inl (system, read) ↦ elim (Bool-cases (has_key (lit "Bios") system)) [
          | inl has ↦
              let same = pair_same (rw (find_bios, read, has) at h) in
              rw (same, text_eq_refl id) refl
          | inr bare ↦
              let rest = find_bios-holds ids answer.1 (rw (find_bios, read, bare) at h) in
              ground (arith, rest)
        ]
        | inr (e, failed) ↦
            let rest = find_bios-holds ids answer.1 (rw (find_bios, failed) at h) in
            ground (arith, rest)
      ]

  chosen-holds :
      (systems : List Text) (preferred : Text) (w : World)
      → holds systems preferred ≡ true
      → holds systems
          (system_chosen preferred (find_bios upstream (preferred ∷ others preferred systems) w).0)
        ≡ true
  chosen-holds systems preferred w listed =
      let candidates = preferred ∷ others preferred systems in
      elim (Option-cases (find_bios upstream candidates w).0) [
        | inl nothing ↦ rw nothing listed
        | inr ((id, system), found) ↦
            rw found
              (candidate-holds systems preferred id listed (find_bios-holds candidates w found))
      ]

  -- Whatever the BMC answers, the system that is chosen is one of those listed.
  pub choose_ids-holds :
      (systems : List Text) (w : World) (ids : Ids)
      → (choose_ids upstream systems w).0 ≡ ok ids
      → holds systems ids.system ≡ true
  unfolding choose_ids
  choose_ids-holds systems w ids h = elim (Option-cases (preferred_of systems)) [
    | inl missed ↦ absurd (err_ne_ok (rw (choose_ids, missed) at h))
    | inr (preferred, found) ↦
        let f = find_bios upstream (preferred ∷ others preferred systems) w in
        elim (Result-cases (find_manager upstream f.0 f.1).0) [
          | inr (e, failed) ↦ absurd (err_ne_ok (rw (choose_ids, found, failed) at h))
          | inl (m, named) ↦
              let same = ok_injective (rw (choose_ids, found, named) at h) in
              rw (← same)
                (chosen-holds systems preferred w (preferred_of-holds systems preferred found))
        ]
  ]
