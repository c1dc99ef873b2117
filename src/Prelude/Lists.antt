-- ===== src/Prelude/Lists.antt =====
-- Lists measured and indexed by native numbers, and the tests that Rust's iterators make.
use Prim.Native.Nat.{ℕ, zero, suc, ◌+◌, ◌<◌}
use mathlib.Core.Path.{◌≡◌, refl, sym, subst}
use mathlib.Core.Bool.{Bool, true, false, ◌&&◌, ◌||◌}
use mathlib.Core.Option.{Option, none, some}
use mathlib.Core.List.{List, [], ◌∷◌, ◌++◌}
use mathlib.Core.Logic.{inl, inr}
use native.Mathlib.Omega.{arith}
use programmable_redfish_pro.Prelude.Tests.{Option-cases}

module _ {ℓ} {A : Type ℓ} where
  abbrev pub length : List A → ℕ
  length [] = 0
  length (x ∷ xs) = suc (length xs)

  abbrev pub get_elem? : List A → ℕ → Option A
  get_elem? [] i = none
  get_elem? (x ∷ xs) zero = some x
  get_elem? (x ∷ xs) (suc i) = get_elem? xs i

  abbrev pub all : (A → Bool) → List A → Bool
  all p [] = true
  all p (x ∷ xs) = p x && all p xs

  abbrev pub any : (A → Bool) → List A → Bool
  any p [] = false
  any p (x ∷ xs) = p x || any p xs

  -- `split_last` of a slice: what stands before the last element, and that element.
  abbrev pub split_last : List A → Option (List A × A)
  split_last [] = none
  split_last (x ∷ xs) = elim (split_last xs) [
    | none ↦ some ([], x)
    | some (ys, y) ↦ some (x ∷ ys, y)
  ]

  pub length-append : (xs ys : List A) → length (xs ++ ys) ≡ length xs + length ys
  length-append [] ys = omega arith
  length-append (x ∷ xs) ys = omega (arith, length-append xs ys)

  pub length-lt_append : (xs : List A) (y : A) (ys : List A) → length xs < length (xs ++ y ∷ ys)
  length-lt_append [] y ys = omega arith
  length-lt_append (x ∷ xs) y ys = omega (arith, length-lt_append xs y ys)

  pub split_last-append : (xs : List A) (y : A) → split_last (xs ++ y ∷ []) ≡ some (xs, y)
  split_last-append [] y = refl
  split_last-append (x ∷ xs) y = rw (split_last-append xs y)

module _ {ℓ} {A : Type ℓ} where
  split_last-none : (xs : List A) → split_last xs ≡ none → xs ≡ []
  split_last-none [] h = refl
  split_last-none (x ∷ xs) h = ground arith

  cons_both :
      (x : A) {xs ps ys : List A} {l y : A}
      → xs ≡ ps ++ l ∷ []
      → ◌≡◌ {A = Option (List A × A)} (some (x ∷ ps, l)) (some (ys, y))
      → x ∷ xs ≡ ys ++ y ∷ []
  cons_both x e h = ground arith

  only :
      (x : A) {xs ys : List A} {y : A}
      → xs ≡ []
      → ◌≡◌ {A = Option (List A × A)} (some ([], x)) (some (ys, y))
      → x ∷ xs ≡ ys ++ y ∷ []
  only x e h = ground arith

  pub append-split_last :
      (xs : List A) {ys : List A} {y : A} → split_last xs ≡ some (ys, y) → xs ≡ ys ++ y ∷ []
  append-split_last [] h = cc
  append-split_last (x ∷ xs) h = elim (Option-cases (split_last xs)) [
    | inl missed ↦ only x (split_last-none xs missed) (rw missed at h)
    | inr ((ps, l), e) ↦ cons_both x (append-split_last xs e) (rw e at h)
  ]

-- A list is empty, or it is a list with a last element.
pub by_last {ℓ κ} :
    {A : Type ℓ} (P : List A → Type κ)
    → P []
    → ((xs : List A) (x : A) → P (xs ++ x ∷ []))
    → (xs : List A) → P xs
by_last P base step xs = elim (Option-cases (split_last xs)) [
  | inl whole ↦ subst P (sym (split_last-none xs whole)) base
  | inr ((ys, y), e) ↦ subst P (sym (append-split_last xs e)) (step ys y)
]

module _ {ℓ κ} {A : Type ℓ} (P : A → Type κ) where
  abbrev pub All : List A → Type κ
  All [] = Unit
  All (x ∷ xs) = P x × All xs
