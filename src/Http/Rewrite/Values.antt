-- ===== src/Http/Rewrite/Values.antt =====
-- What `rewrite_value` makes of a JSON document.
use programmable_redfish_pro.Http.Address.{SocketAddrV4}
use programmable_redfish_pro.Prelude.{
  ℕ, ◌≡◌, ◌==◌, none, [], ◌∷◌, true, false, starts_with, arith, refl, Bool, Bool-cases, inl, inr,
  some, Text,
}
use programmable_redfish_pro.Json.{
  Value, null, bool, num, str, arr, obj, Items, nil, cons, Fields, end, field,
}
use programmable_redfish_pro.DeepPath.{contains_text}
use programmable_redfish_pro.Http.Swap.{sep, strip_prefix, find_sep, trim_end_slashes}
use programmable_redfish_pro.Http.Swap.Total.{Swapped, no_link, swap_authorities_lem}
use programmable_redfish_pro.Http.Swap.Scan.{clean, clean-none}
use programmable_redfish_pro.Http.Rewrite.{
  is_target, rewrite_text, rewrite_value, rewrite_items, rewrite_fields,
}

-- A text that does not contain `://`.
strip_prefix-plain : (p s : Text) → starts_with p s ≡ false → strip_prefix p s ≡ none
unfolding starts_with
strip_prefix-plain [] s h = cc
strip_prefix-plain (p ∷ ps) [] h = refl
strip_prefix-plain (p ∷ ps) (x ∷ s) h = elim (Bool-cases (p == x)) [
  | inl same ↦ rw same (strip_prefix-plain ps s (rw same at h))
  | inr other ↦ rw other refl
]

pub find_sep-plain : (s : Text) → contains_text sep s ≡ false → find_sep s ≡ none
unfolding contains_text find_sep
find_sep-plain [] h = refl
find_sep-plain (x ∷ s) h =
    let here : starts_with sep (x ∷ s) ≡ false = ground arith in
    let there : contains_text sep s ≡ false = ground arith in
    rw (find_sep, strip_prefix-plain sep (x ∷ s) here, find_sep-plain s there) refl

clean-plain : (s : Text) → contains_text sep s ≡ false → clean s ≡ true
clean-plain s h = clean-none s (find_sep-plain s h)

module _ (target : SocketAddrV4) (base : Text) where
  -- In the second text the base stands for every URL of the target.
  abbrev pub SwappedText : Text → Text → Type 0
  SwappedText = Swapped (trim_end_slashes base) (λ a. is_target a target)

  -- The same document, but for the URLs of the target in its strings. Its keys are the same.
  mutual
    pub data Rewritten : Value → Value → Type 0 where
      same_null : Rewritten null null
      same_bool : (b : Bool) → Rewritten (bool b) (bool b)
      same_num : (n : ℕ) → Rewritten (num n) (num n)
      text : {s t : Text} → SwappedText s t → Rewritten (str s) (str t)
      items : {vs ws : Items} → RewrittenItems vs ws → Rewritten (arr vs) (arr ws)
      fields : {fs gs : Fields} → RewrittenFields fs gs → Rewritten (obj fs) (obj gs)

    pub data RewrittenItems : Items → Items → Type 0 where
      no_items : RewrittenItems nil nil
      next_item :
          {v w : Value} {vs ws : Items}
          → Rewritten v w
          → RewrittenItems vs ws
          → RewrittenItems (cons v vs) (cons w ws)

    pub data RewrittenFields : Fields → Fields → Type 0 where
      no_fields : RewrittenFields end end
      next_field :
          {v w : Value} {fs gs : Fields} (key : Text)
          → Rewritten v w
          → RewrittenFields fs gs
          → RewrittenFields (field key v fs) (field key w gs)

  -- `rewrite_text` never slices out of bounds, and changes the URLs of the target and nothing else.
  pub rewrite_text_lem :
      (s : Text) → (t : Text) × (rewrite_text target base s ≡ some t) × SwappedText s t
  unfolding rewrite_text
  rewrite_text_lem s = elim (Bool-cases (contains_text sep s)) [
    | inl link ↦
        let (t, done, swapped) = swap_authorities_lem base s (λ a. is_target a target) in
        (t, rw (rewrite_text, link) done, swapped)
    | inr plain ↦ (s, rw (rewrite_text, plain) refl, no_link (clean-plain s plain))
  ]

  rewrite_str :
      (s : Text) → (w : Value) × (rewrite_value target base (str s) ≡ some w) × Rewritten (str s) w
  unfolding rewrite_value
  rewrite_str s =
      let (t, done, swapped) = rewrite_text_lem s in
      elim (Bool-cases (contains_text sep s)) [
        | inl link ↦ (str t, rw (rewrite_value, link, done) refl, text swapped)
        | inr plain ↦ (str s, rw (rewrite_value, plain) refl, text (no_link (clean-plain s plain)))
      ]

  mutual
    unfolding rewrite_value

    rewritten : (v : Value) → (w : Value) × (rewrite_value target base v ≡ some w) × Rewritten v w
    rewritten null = (null, refl, same_null)
    rewritten (bool b) = (bool b, refl, same_bool b)
    rewritten (num n) = (num n, refl, same_num n)
    rewritten (str s) = rewrite_str s
    rewritten (arr vs) =
        let (ws, done, same) = rewritten_items vs in (arr ws, rw done refl, items same)
    rewritten (obj fs) =
        let (gs, done, same) = rewritten_fields fs in (obj gs, rw done refl, fields same)

    rewritten_items :
        (vs : Items)
        → (ws : Items) × (rewrite_items target base vs ≡ some ws) × RewrittenItems vs ws
    rewritten_items nil = (nil, refl, no_items)
    rewritten_items (cons v vs) =
        let (w, here, same) = rewritten v in
        let (ws, more, rest) = rewritten_items vs in
        (cons w ws, rw (here, more) refl, next_item same rest)

    rewritten_fields :
        (fs : Fields)
        → (gs : Fields) × (rewrite_fields target base fs ≡ some gs) × RewrittenFields fs gs
    rewritten_fields end = (end, refl, no_fields)
    rewritten_fields (field key v fs) =
        let (w, here, same) = rewritten v in
        let (gs, more, rest) = rewritten_fields fs in
        (field key w gs, rw (here, more) refl, next_field key same rest)

  -- `rewrite_value` succeeds on every document. In its strings it replaces the URLs of the target, and
  -- it changes nothing else.
  pub rewrite_value_lem :
      (v : Value) → (w : Value) × (rewrite_value target base v ≡ some w) × Rewritten v w
  rewrite_value_lem v = rewritten v
