-- ===== src/DeepPath/Segments.antt =====
-- Counting the pieces of a path from its end.
use mathlib.Core.List.{reverse, reverse-cons}
use programmable_redfish_pro.Prelude.{
  ℕ, zero, suc, ◌+◌, ◌-◌, ◌<◌, ◌≤◌, ◌≡◌, refl, sym, ap, ◌∙◌, Bool-cases, none, List, [], ◌∷◌, ◌++◌,
  Text, split, length, get_elem?, length-append, inl, inr, arith, leb, ltb,
}
use programmable_redfish_pro.DeepPath.{negsuc, segment}

step_back : (i n : ℕ) → i < n → n - i ≡ suc (n - suc i)
step_back i n h = omega arith

sub_all : (i n : ℕ) → i ≡ n → n - i ≡ 0
sub_all i n h = omega arith

suc_add : (m i : ℕ) → suc m + i ≡ suc (m + i)
suc_add m i = omega arith

zero_add : (i : ℕ) → 0 + i ≡ i
zero_add i = omega arith

sub_suc : (n i : ℕ) → suc n - suc i ≡ n - i
sub_suc n i = omega arith

module _ {ℓ} {A : Type ℓ} where
  get_elem?-append_right :
      (xs ys : List A) (i : ℕ) → get_elem? (xs ++ ys) (length xs + i) ≡ get_elem? ys i
  get_elem?-append_right [] ys i = ap (get_elem? ys) (zero_add i)
  get_elem?-append_right (x ∷ xs) ys i =
      ap (get_elem? (x ∷ (xs ++ ys))) (suc_add (length xs) i) ∙ get_elem?-append_right xs ys i

  get_elem?-append_left :
      (xs ys : List A) (i : ℕ) → i < length xs → get_elem? (xs ++ ys) i ≡ get_elem? xs i
  get_elem?-append_left [] ys i h = elim h [ ]
  get_elem?-append_left (x ∷ xs) ys zero h = refl
  get_elem?-append_left (x ∷ xs) ys (suc i) h = get_elem?-append_left xs ys i (omega arith)

  pub length-reverse : (xs : List A) → length (reverse xs) ≡ length xs
  length-reverse [] = refl
  length-reverse (x ∷ xs) =
      rw (reverse-cons) (omega (arith, length-append (reverse xs) (x ∷ []), length-reverse xs))

  get_elem?-past : (xs : List A) (i : ℕ) → length xs ≤ i → get_elem? xs i ≡ none
  get_elem?-past [] i h = refl
  get_elem?-past (x ∷ xs) zero h = elim h [ ]
  get_elem?-past (x ∷ xs) (suc i) h = get_elem?-past xs i (omega arith)

  get_elem?-reverse :
      (xs : List A) (i : ℕ)
      → i < length xs
      → get_elem? (reverse xs) i ≡ get_elem? xs (length xs - suc i)
  get_elem?-reverse [] i h = elim h [ ]
  get_elem?-reverse (x ∷ xs) i h = elim (Bool-cases (ltb i (length xs))) [
    | inl inside ↦
        let before : i < length xs = ground arith in
        let short : i < length (reverse xs) = omega (arith, length-reverse xs, before) in
        ap (λ (l : List A). get_elem? l i) (reverse-cons x xs)
        ∙ get_elem?-append_left (reverse xs) (x ∷ []) i short
        ∙ get_elem?-reverse xs i before
        ∙ ap (get_elem? (x ∷ xs)) (sym (sub_suc (length xs) i ∙ step_back i (length xs) before))
    | inr out ↦
        let whole : i ≡ length xs = ground arith in
        let all_of : i ≡ length (reverse xs) + 0 = ground (arith, length-reverse xs, h, out) in
        ap (λ (l : List A). get_elem? l i) (reverse-cons x xs)
        ∙ ap (get_elem? (reverse xs ++ x ∷ [])) all_of
        ∙ get_elem?-append_right (reverse xs) (x ∷ []) 0
        ∙ ap (get_elem? (x ∷ xs)) (sym (sub_suc (length xs) i ∙ sub_all i (length xs) whole))
  ]

-- The piece at the negative index -(n + 1) is the one `n` places from the end, and none where there
-- are no more than `n` pieces.
pub segment_negative :
    (path : Text) (n : ℕ) → segment path (negsuc n) ≡ get_elem? (reverse (split b'/' path)) n
unfolding segment
segment_negative path n = elim (Bool-cases (leb (suc n) (length (split b'/' path)))) [
  | inl inside ↦ rw inside (sym (get_elem?-reverse (split b'/' path) n (ground arith)))
  | inr past ↦
      let out : length (reverse (split b'/' path)) ≤ n =
        ground (arith, length-reverse (split b'/' path)) in
      rw past (sym (get_elem?-past (reverse (split b'/' path)) n out))
]
