-- ===== src/Http/Rewrite/Hidden.antt =====
-- That `rewrite_text` and `rewrite_value` of src/http.rs leave no URL of the target in what they give.
use mathlib.Core.Path.{subst, ap}
use programmable_redfish_pro.Prelude.{
  ℕ, ◌≡◌, refl, sym, ◌∙◌, Bool, true, false, not, Bool-cases, inl, inr, Option, some, List, [], ◌∷◌,
  ◌++◌, map, Text, all, if◌then◌else◌,
}
use programmable_redfish_pro.Http.Address.{SocketAddrV4}
use programmable_redfish_pro.Json.{
  Value, null, bool, num, str, arr, obj, Items, nil, cons, Fields, end, field,
}
use programmable_redfish_pro.DeepPath.{contains_text}
use programmable_redfish_pro.Http.Swap.{
  sep, is_ascii_alphabetic, is_scheme_byte, is_delimiter, trim_end_slashes,
}
use programmable_redfish_pro.Http.Swap.Scan.{authorities}
use programmable_redfish_pro.Http.Swap.Scan.Swapped.{authorities-swap_authorities}
use programmable_redfish_pro.Http.Rewrite.Values.{Rewritten, rewrite_value_lem}
use programmable_redfish_pro.Http.Rewrite.{
  is_target, rewrite_text, rewrite_value, rewrite_items, rewrite_fields,
}
use programmable_redfish_pro.Http.Rewrite.Shown.{
  authorities-plain, hides_text, hides, hides_items, hides_fields, Shown, hides-Shown,
}

-- Where every wanted text is replaced by one that is not wanted, none is left.
all-replaced :
    (wanted : Text → Bool) (other : Text) (texts : List Text)
    → wanted other ≡ false
    → all (λ a. not (wanted a)) (map (λ a. if wanted a then other else a) texts) ≡ true
all-replaced wanted other [] h = refl
all-replaced wanted other (a ∷ texts) h = elim (Bool-cases (wanted a)) [
  | inl replaced ↦ rw (replaced, h) (all-replaced wanted other texts h)
  | inr left ↦ rw (left, left) (all-replaced wanted other texts h)
]

some_injective : {v w : Value} → ◌≡◌ {A = Option Value} (some v) (some w) → v ≡ w
some_injective h = cc

module _ (target : SocketAddrV4) (base : Text) (b : ℕ) (s authority : Text)
    (parts : trim_end_slashes base ≡ (b ∷ s) ++ (sep ++ authority))
    (letter : is_ascii_alphabetic b ≡ true) (in_scheme : all is_scheme_byte (b ∷ s) ≡ true)
    (no_delimiter : all (λ c. not (is_delimiter c)) authority ≡ true)
    (apart : is_target authority target ≡ false) where
  hides-rewrite_text :
      (text : Text)
      → (out : Text) × (rewrite_text target base text ≡ some out) × (hides_text target out ≡ true)
  unfolding rewrite_text hides_text
  hides-rewrite_text text = elim (Bool-cases (contains_text sep text)) [
    | inr plain ↦
        (text, rw (rewrite_text, plain) refl, rw (hides_text, authorities-plain text plain) refl)
    | inl link ↦
        let (out, done, same) =
          authorities-swap_authorities base text (λ a. is_target a target) b s authority parts
            letter in_scheme no_delimiter in
        (
          out,
          rw (rewrite_text, link) done,
          rw (hides_text, same)
              (all-replaced (λ a. is_target a target) authority (authorities text) apart),
        )
  ]

  hides-rewrite_str :
      (text : Text)
      → (w : Value) × (rewrite_value target base (str text) ≡ some w) × (hides target w ≡ true)
  unfolding rewrite_value hides hides_text
  hides-rewrite_str text =
      let (out, done, hidden) = hides-rewrite_text text in
      elim (Bool-cases (contains_text sep text)) [
        | inl link ↦ (str out, rw (rewrite_value, link, done) refl, hidden)
        | inr plain ↦ (
          str text,
          rw (rewrite_value, plain) refl,
          rw (hides_text, authorities-plain text plain) refl,
        )
      ]

  mutual
    unfolding rewrite_value hides

    hides-rewritten :
        (v : Value) → (w : Value) × (rewrite_value target base v ≡ some w) × (hides target w ≡ true)
    hides-rewritten null = (null, refl, refl)
    hides-rewritten (bool x) = (bool x, refl, refl)
    hides-rewritten (num n) = (num n, refl, refl)
    hides-rewritten (str text) = hides-rewrite_str text
    hides-rewritten (arr vs) =
        let (ws, done, hidden) = hides-rewritten_items vs in (arr ws, rw done refl, hidden)
    hides-rewritten (obj fs) =
        let (gs, done, hidden) = hides-rewritten_fields fs in (obj gs, rw done refl, hidden)

    hides-rewritten_items :
        (vs : Items)
        → (ws : Items) × (rewrite_items target base vs ≡ some ws) × (hides_items target ws ≡ true)
    hides-rewritten_items nil = (nil, refl, refl)
    hides-rewritten_items (cons v vs) =
        let (w, here, hidden) = hides-rewritten v in
        let (ws, more, rest) = hides-rewritten_items vs in
        (cons w ws, rw (here, more) refl, rw (hidden, rest) refl)

    hides-rewritten_fields :
        (fs : Fields)
        → (gs : Fields) × (rewrite_fields target base fs ≡ some gs)
          × (hides_fields target gs ≡ true)
    hides-rewritten_fields end = (end, refl, refl)
    hides-rewritten_fields (field key v fs) =
        let (w, here, hidden) = hides-rewritten v in
        let (gs, more, rest) = hides-rewritten_fields fs in
        (field key w gs, rw (here, more) refl, rw (hidden, rest) refl)

  -- The base is a scheme and an authority, which is not the target's. `rewrite_value` then succeeds,
  -- replaces the URLs of the target in strings by the base and changes nothing else, and no string of
  -- what it gives, keys left aside, shows a URL of the target: a scheme, `://`, and the target's
  -- address with any port or none, up to the end of the authority, where that stands before any other
  -- `://`, or after a character that ends an authority and is no slash.
  pub hides-rewrite_value :
      (v : Value)
      → (w : Value) × (rewrite_value target base v ≡ some w)
        × Rewritten target base v w
        × ¬ Shown target w
  hides-rewrite_value v =
      let (w, done, hidden) = hides-rewritten v in
      let (w', done', changed) = rewrite_value_lem target base v in
      let same : w' ≡ w = some_injective (sym done' ∙ done) in
      (w, done, subst (Rewritten target base v) same changed, hides-Shown target w hidden)

  -- The same of a document that is known to be what `rewrite_value` gives.
  pub hides-rewritten_value :
      (v : Value) {w : Value} → rewrite_value target base v ≡ some w → ¬ Shown target w
  hides-rewritten_value v {w} h =
      let (w', done, hidden) = hides-rewritten v in
      hides-Shown target w (ap (hides target) (some_injective (sym h ∙ done)) ∙ hidden)
