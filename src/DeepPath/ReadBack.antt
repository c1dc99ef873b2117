-- ===== src/DeepPath/ReadBack.antt =====
-- What `set` wrote, `walk` reads; and where `set` fails.
use mathlib.Core.Path.{subst}
use programmable_redfish_pro.Prelude.{
  ℕ, ◌≡◌, refl, Bool-cases, Option-cases, some, List, [], ◌∷◌, Text, text_eq_refl, split,
  parse_usize, ltb, inl, inr, arith, Result, ok, err, map_ok, ok_injective, err_ne_ok,
}
use programmable_redfish_pro.Json.{
  Value, null, arr, obj, Items, Fields, end, count, item, lookup, lookup-insert, lookup-set_field,
  item-set_item, item-of_lt,
}
use programmable_redfish_pro.DeepPath.{
  walk, walk_from, SetError, or_insert, set_last, set_under, set_at_index, set_step, set_from,
  set_path, as_map,
}

walk-set_last :
    (node : Value) (last : Text) (new : Value)
    → walk_from (set_last node last new) (last ∷ []) ≡ some new
unfolding set_last walk_from
walk-set_last (arr items) last new = elim (Option-cases (parse_usize last)) [
  | inl word ↦ rw (word, set_last) (simp (lookup-insert, text_eq_refl))
  | inr (index, number) ↦ elim (Bool-cases (ltb index (count items))) [
    | inl inside ↦
        let (v, there) = item-of_lt items index (ground arith) in
        rw (number, set_last, inside) (rw (number, item-set_item items index new there) refl)
    | inr past ↦ rw (number, set_last, past) (simp (lookup-insert, text_eq_refl))
  ]
]
walk-set_last null last new = simp (lookup-insert, text_eq_refl)
walk-set_last _ last new = simp (lookup-insert, text_eq_refl)

pub lookup-or_insert :
    (key : Text) (value : Value) (map : Fields)
    → (v : Value) × (lookup key (or_insert key value map) ≡ some v)
unfolding or_insert
lookup-or_insert key value map = elim (Option-cases (lookup key map)) [
  | inl absent ↦ (value, rw (absent, or_insert) (simp (lookup-insert, text_eq_refl)))
  | inr (v, there) ↦ (v, rw (there, or_insert) there)
]

map_ok-eq-ok :
    {E A B : Type 0} (f : A → B) (r : Result E A) {b : B}
    → map_ok f r ≡ ok b
    → (a : A) × (r ≡ ok a) × (f a ≡ b)
map_ok-eq-ok f (ok a) h = (a, refl, ok_injective h)
map_ok-eq-ok f (err e) h = absurd (err_ne_ok h)

-- `into` writes `new` where `segments` lead.
abbrev Writes : (Value → Result SetError Value) → List Text → Value → Type 0
Writes into segments new =
    (child after : Value) → into child ≡ ok after → walk_from after segments ≡ some new

module _ (into : Value → Result SetError Value) (segments : List Text) (new : Value)
    (writes : Writes into segments new) where
  walk-set_under :
      (segment : Text) (map : Fields) {after : Value}
      → set_under into segment map ≡ ok after
      → walk_from after (segment ∷ segments) ≡ some new
  unfolding set_under walk_from
  walk-set_under segment map h =
      let there = or_insert segment (obj end) map in
      let (child, found) = lookup-or_insert segment (obj end) map in
      let (child', done, same) = map_ok-eq-ok _ (into child) (rw (found, set_under) at h) in
      subst (λ (v : Value). walk_from v (segment ∷ segments) ≡ some new) same
        (rw (lookup-set_field segment segment child' child there found, text_eq_refl segment)
          (writes child child' done))

  walk-set_at_index :
      (segment : Text) (index : ℕ) (items : Items) {after : Value}
      → parse_usize segment ≡ some index
      → set_at_index into index items ≡ ok after
      → walk_from after (segment ∷ segments) ≡ some new
  unfolding set_at_index walk_from
  walk-set_at_index segment index items number h = elim (Option-cases (item items index)) [
    | inl past ↦ absurd (err_ne_ok (rw (past, set_at_index) at h))
    | inr (child, found) ↦
        let (child', done, same) = map_ok-eq-ok _ (into child) (rw (found, set_at_index) at h) in
        subst (λ (v : Value). walk_from v (segment ∷ segments) ≡ some new) same
          (rw (number, item-set_item items index child' found) (writes child child' done))
  ]

  walk-set_step :
      (node : Value) (segment : Text) {after : Value}
      → set_step into node segment ≡ ok after
      → walk_from after (segment ∷ segments) ≡ some new
  unfolding set_step
  walk-set_step (arr items) segment h = elim (Option-cases (parse_usize segment)) [
    | inl word ↦ walk-set_under segment end (rw (word, set_step) at h)
    | inr (index, number) ↦
        walk-set_at_index segment index items number (rw (number, set_step) at h)
  ]
  walk-set_step null segment h = walk-set_under segment end h
  walk-set_step node segment h = walk-set_under segment (as_map node) h

walk-set_from :
    (segments : List Text) (new node after : Value)
    → set_from node segments new ≡ ok after
    → walk_from after segments ≡ some new
unfolding set_from
walk-set_from [] new node after h = absurd (err_ne_ok h)
walk-set_from (last ∷ []) new node after h =
    subst (λ (v : Value). walk_from v (last ∷ []) ≡ some new) (ok_injective h)
      (walk-set_last node last new)
walk-set_from (segment ∷ (next ∷ more)) new node after h =
    walk-set_step (λ child. set_from child (next ∷ more) new) (next ∷ more) new
      (walk-set_from (next ∷ more) new) node segment h

-- A value that a successful `set` has written is what a read at the same path finds.
pub walk-set_path :
    (json : Value) (path : Text) (new : Value) {after : Value}
    → set_path json path new ≡ ok after
    → walk after path ≡ some new
unfolding set_path walk
walk-set_path json [] new h = absurd (err_ne_ok h)
walk-set_path json (x ∷ path) new {after} h = walk-set_from (split b'/' (x ∷ path)) new json after h
