-- ===== src/Http/Headers/Copied.antt =====
-- What a map holds after entries were appended to it one by one, the step that the loops over
-- headers in src/http.rs, src/rune_host.rs and src/script_bmc.rs share.
use mathlib.Core.List.{append_assoc, append-nil}
use programmable_redfish_pro.Prelude.{
  ◌≡◌, refl, sym, ap, Bool, Bool-cases, inl, inr, List, [], ◌∷◌, ◌++◌, Text, text_eq, text_eq_iff,
  if◌then◌else◌,
}
use programmable_redfish_pro.Http.Headers.{HeaderMaps, IsLawful, values_of}

-- The part of a list that a test on the name lets through.
abbrev pub kept : {A : Type 0} → Bool → List A → List A
kept b vs = if b then vs else []

module _ (http : HeaderMaps) where
  open http use {HeaderMap, HeaderValue, append, get_all}

  -- The loop that appends what a test on the name lets through.
  unfoldable pub append_kept :
      (keep : Text → Bool) → List (Text × HeaderValue) → HeaderMap → HeaderMap
  append_kept keep [] dest = dest
  append_kept keep ((name, value) ∷ entries) dest =
      append_kept keep entries (if keep name then append dest name value else dest)

  -- The loop that appends values under one name.
  unfoldable pub append_all : Text → List HeaderValue → HeaderMap → HeaderMap
  append_all name [] dest = dest
  append_all name (value ∷ values) dest = append_all name values (append dest name value)

  module _ (lawful : IsLawful http) where
    pub get_all-append_kept :
        (keep : Text → Bool) (entries : List (Text × HeaderValue)) (dest : HeaderMap) (n : Text)
        → get_all (append_kept keep entries dest) n
          ≡ get_all dest n ++ kept (keep n) (values_of n entries)
    unfolding append_kept values_of
    get_all-append_kept keep [] dest n = elim (Bool-cases (keep n)) [
      | inl lets ↦ rw lets (sym (append-nil (get_all dest n)))
      | inr stops ↦ rw stops (sym (append-nil (get_all dest n)))
    ]
    get_all-append_kept keep ((name, value) ∷ entries) dest n = elim (Bool-cases (text_eq n name)) [
      | inl same ↦
          let here : keep n ≡ keep name = ap keep ((text_eq_iff n name).0 same) in
          elim (Bool-cases (keep name)) [
            | inl lets ↦
                rw
                  (
                    here,
                    lets,
                    get_all-append_kept keep entries (append dest name value) n,
                    lawful.get_all-append dest name value n,
                    same,
                    here,
                    lets,
                  )
                  (append_assoc (get_all dest n) (value ∷ []) (values_of n entries))
            | inr stops ↦
                rw (here, stops, get_all-append_kept keep entries dest n, here, stops) refl
          ]
      | inr other ↦ elim (Bool-cases (keep name)) [
        | inl lets ↦
            rw
              (
                lets,
                get_all-append_kept keep entries (append dest name value) n,
                lawful.get_all-append dest name value n,
                other,
              )
              refl
        | inr stops ↦ rw (stops, get_all-append_kept keep entries dest n, other) refl
      ]
    ]

    pub get_all-append_all :
        (name : Text) (values : List HeaderValue) (dest : HeaderMap) (n : Text)
        → get_all (append_all name values dest) n ≡ get_all dest n ++ kept (text_eq n name) values
    unfolding append_all
    get_all-append_all name [] dest n = elim (Bool-cases (text_eq n name)) [
      | inl same ↦ rw same (sym (append-nil (get_all dest n)))
      | inr other ↦ rw other (sym (append-nil (get_all dest n)))
    ]
    get_all-append_all name (value ∷ values) dest n = elim (Bool-cases (text_eq n name)) [
      | inl same ↦
          rw
            (
              get_all-append_all name values (append dest name value) n,
              lawful.get_all-append dest name value n,
              same,
            )
            (append_assoc (get_all dest n) (value ∷ []) values)
      | inr other ↦
          rw
            (
              get_all-append_all name values (append dest name value) n,
              lawful.get_all-append dest name value n,
              other,
            )
            refl
    ]
