-- ===== src/DeepPath/Failures.antt =====
-- The only way in which a deep write fails.
use programmable_redfish_pro.Prelude.{
  ℕ, ◌≡◌, ◌≢◌, refl, sym, Option-cases, List, [], ◌∷◌, Text, split, parse_usize, inl, inr, Result,
  ok, err, map_ok, err_ne_ok, arith,
}
use programmable_redfish_pro.Json.{Value, null, arr, obj, Items, Fields, end, item}
use programmable_redfish_pro.DeepPath.{
  SetError, past_end, set_under, set_at_index, set_step, set_from, set_path, as_map,
}
use programmable_redfish_pro.DeepPath.ReadBack.{lookup-or_insert}

map_ok-eq-err :
    {E A B : Type 0} (f : A → B) (r : Result E A) {e : E} → map_ok f r ≡ err e → r ≡ err e
map_ok-eq-err f (ok a) h = cc
map_ok-eq-err f (err e) h = cc

err_injective : {E A : Type 0} {d e : E} → ◌≡◌ {A = Result E A} (err d) (err e) → d ≡ e
err_injective h = cc

abbrev FailsPast : (Value → Result SetError Value) → Type 0
FailsPast into = (child : Value) (e : SetError) → into child ≡ err e → e ≡ past_end

module _ (into : Value → Result SetError Value) (past : FailsPast into) where
  under_past :
      (segment : Text) (map : Fields) (e : SetError)
      → set_under into segment map ≡ err e
      → e ≡ past_end
  unfolding set_under
  under_past segment map e h =
      let (child, found) = lookup-or_insert segment (obj end) map in
      past child e (map_ok-eq-err _ (into child) (rw (found, set_under) at h))

  at_index_past :
      (index : ℕ) (items : Items) (e : SetError)
      → set_at_index into index items ≡ err e
      → e ≡ past_end
  unfolding set_at_index
  at_index_past index items e h = elim (Option-cases (item items index)) [
    | inl missing ↦ sym (err_injective (rw (missing, set_at_index) at h))
    | inr (child, found) ↦
        past child e (map_ok-eq-err _ (into child) (rw (found, set_at_index) at h))
  ]

  step_past :
      (node : Value) (segment : Text) (e : SetError)
      → set_step into node segment ≡ err e
      → e ≡ past_end
  unfolding set_step
  step_past (arr items) segment e h = elim (Option-cases (parse_usize segment)) [
    | inl word ↦ under_past segment end e (rw (word, set_step) at h)
    | inr (index, number) ↦ at_index_past index items e (rw (number, set_step) at h)
  ]
  step_past null segment e h = under_past segment end e h
  step_past node segment e h = under_past segment (as_map node) e h

from_past :
    (segments : List Text) (new node : Value) (e : SetError)
    → segments ≢ []
    → set_from node segments new ≡ err e
    → e ≡ past_end
unfolding set_from
from_past [] new node e some' h = absurd (some' refl)
from_past (last ∷ []) new node e some' h = absurd (err_ne_ok (sym h))
from_past (segment ∷ (next ∷ more)) new node e some' h =
    step_past (λ child. set_from child (next ∷ more) new)
      (λ child d g. from_past (next ∷ more) new child d (λ c. cc c) g) node segment e h

split-ne-nil : (sep : ℕ) (s : Text) → split sep s ≢ []
unfolding split
split-ne-nil sep [] h = cc h
split-ne-nil sep (x ∷ s) h = ground (arith, h)

-- A write at a path that is not empty fails with one error only: an index on the way that runs past
-- an array.
pub set_path-eq-err :
    (json : Value) (path : Text) (new : Value) (e : SetError)
    → path ≢ []
    → set_path json path new ≡ err e
    → e ≡ past_end
unfolding set_path
set_path-eq-err json [] new e some' h = absurd (some' refl)
set_path-eq-err json (x ∷ path) new e some' h =
    from_past (split b'/' (x ∷ path)) new json e (split-ne-nil b'/' (x ∷ path)) h
