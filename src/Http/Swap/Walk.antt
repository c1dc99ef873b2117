-- ===== src/Http/Swap/Walk.antt =====
-- The walks of `swap_authorities`: to the next `://`, back over a scheme, and over an authority.
use mathlib.Core.Path.{subst}
use mathlib.Core.List.{reverse, reverse-cons, reverse-append, append_assoc}
use programmable_redfish_pro.Prelude.{
  ℕ, zero, suc, ◌≤◌, ◌<◌, ◌≡◌, refl, ap, ◌∙◌, Bool, true, false, not, Bool-cases, Option-cases, ◌⊎◌,
  inl, inr, Option, some, [], ◌∷◌, ◌++◌, Text, length, length-append, split_last, arith, ==_iff,
  ◌==◌,
}
use programmable_redfish_pro.Prelude.Optional.{>>=-eq-some}
use programmable_redfish_pro.DeepPath.Segments.{length-reverse}
use programmable_redfish_pro.Http.Swap.{
  sep, strip_prefix, find_sep, span, is_ascii_alphabetic, is_scheme_byte, is_delimiter, scheme_len,
  split_at,
}

pub strip_prefix-some : (p s : Text) {rest : Text} → strip_prefix p s ≡ some rest → s ≡ p ++ rest
strip_prefix-some [] s h = ground arith
strip_prefix-some (p ∷ ps) [] h = cc
strip_prefix-some (p ∷ ps) (x ∷ s) h = elim (Bool-cases (p == x)) [
  | inl same ↦ let rest = strip_prefix-some ps s (rw same at h) in let e = (==_iff p x).0 same in cc
  | inr other ↦ cc (rw other at h)
]

pub found_later :
    (x : ℕ) {s b a before after : Text}
    → ◌≡◌ {A = Option (Text × Text)} (some (x ∷ b, a)) (some (before, after))
    → s ≡ b ++ (sep ++ a)
    → x ∷ s ≡ before ++ (sep ++ after)
found_later x h e = ground arith

pub found_now :
    {s a before after : Text}
    → ◌≡◌ {A = Option (Text × Text)} (some ([], a)) (some (before, after))
    → s ≡ sep ++ a
    → s ≡ before ++ (sep ++ after)
found_now h e = ground arith

pub find_sep-some :
    (s : Text) {before after : Text}
    → find_sep s ≡ some (before, after)
    → s ≡ before ++ (sep ++ after)
unfolding find_sep
find_sep-some [] h = cc
find_sep-some (x ∷ s) {before} {after} h = elim (Option-cases (strip_prefix sep (x ∷ s))) [
  | inl missed ↦
      let ((b, a), found, same) = >>=-eq-some (find_sep s) _ (rw (find_sep, missed) at h) in
      found_later x same (find_sep-some s found)
  | inr (rest, here) ↦ found_now (rw (find_sep, here) at h) (strip_prefix-some sep (x ∷ s) here)
]

pub span-append : (p : ℕ → Bool) (s : Text) → (span p s).0 ++ (span p s).1 ≡ s
unfolding span
span-append p [] = refl
span-append p (x ∷ s) = elim (Bool-cases (p x)) [
  | inl passes ↦ rw passes (ap (◌∷◌ x) (span-append p s))
  | inr fails ↦ rw fails refl
]

-- A byte that fails the test stops the walk.
pub span-stop :
    (p : ℕ → Bool) (s : Text) (b : ℕ) (t : Text)
    → p b ≡ false
    → length (span p (s ++ b ∷ t)).0 ≤ length s
unfolding span
span-stop p [] b t h = rw h (omega arith)
span-stop p (x ∷ s) b t h = elim (Bool-cases (p x)) [
  | inl passes ↦ rw passes (omega (arith, span-stop p s b t h))
  | inr fails ↦ rw fails (omega arith)
]

pub span-le : (p : ℕ → Bool) (s : Text) → length (span p s).0 ≤ length s
unfolding span
span-le p [] = omega arith
span-le p (x ∷ s) = elim (Bool-cases (p x)) [
  | inl passes ↦ rw passes (omega (arith, span-le p s))
  | inr fails ↦ rw fails (omega arith)
]

pub scheme_len-le-span :
    (before : Text) → scheme_len before ≤ length (span is_scheme_byte (reverse before)).0
unfolding scheme_len
scheme_len-le-span before =
    elim (Option-cases (split_last (span is_scheme_byte (reverse before)).0)) [
      | inl missed ↦ rw (scheme_len, missed) (omega arith)
      | inr ((nearer, first), found) ↦ elim (Bool-cases (is_ascii_alphabetic first)) [
        | inl letter ↦ rw (scheme_len, found, letter) (omega arith)
        | inr other ↦ rw (scheme_len, found, other) (omega arith)
      ]
    ]

-- A cursor that no scheme crosses: it is at the start of the text, after a byte that is in no
-- scheme, at the end of the text, or before the end of an authority.
pub data Boundary : Text → Text → Type 0 where
  at_start : {rest : Text} → Boundary [] rest
  after_byte :
      {rest : Text} (front : Text) (b : ℕ)
      → is_scheme_byte b ≡ false
      → Boundary (front ++ b ∷ []) rest
  at_end : {seen : Text} → Boundary seen []
  at_delimiter : {seen rest : Text} (b : ℕ) → is_delimiter b ≡ true → Boundary seen (b ∷ rest)

pub delimiter_apart : (b : ℕ) → is_delimiter b ≡ true → is_scheme_byte b ≡ false
delimiter_apart b h = ground arith

pub apart_colon : (b : ℕ) → b ≡ b':' → is_delimiter b ≡ true → ⊥
apart_colon b e h = ground arith

pub reverse-cut :
    (front before : Text) (b : ℕ)
    → reverse (front ++ b ∷ before) ≡ reverse before ++ b ∷ reverse front
reverse-cut front before b =
    reverse-append front (b ∷ before)
    ∙ ap (λ (r : Text). r ++ reverse front) (reverse-cons b before)
    ∙ append_assoc (reverse before) (b ∷ []) (reverse front)

-- A byte that is in no scheme stops the walk back.
pub scheme_len-cut :
    (front before : Text) (b : ℕ)
    → is_scheme_byte b ≡ false
    → scheme_len (front ++ b ∷ before) ≤ length before
scheme_len-cut front before b apart =
    let stop = span-stop is_scheme_byte (reverse before) b (reverse front) apart in
    let walked = scheme_len-le-span (front ++ b ∷ before) in
    let cut = rw (reverse-cut front before b) at walked in
    omega (arith, cut, stop, length-reverse before)

-- So the walk back over a scheme stays behind the cursor.
pub scheme_len-le :
    {seen rest : Text} (before after : Text)
    → Boundary seen rest
    → rest ≡ before ++ (sep ++ after)
    → scheme_len (seen ++ before) ≤ length before
scheme_len-le before after at_start e = omega (
  arith,
  scheme_len-le-span before,
  span-le is_scheme_byte (reverse before),
  length-reverse before,
)
scheme_len-le before after (after_byte front b apart) e =
    rw (append_assoc front (b ∷ []) before) (scheme_len-cut front before b apart)
scheme_len-le [] after at_end e = cc
scheme_len-le (x ∷ before) after at_end e = cc
scheme_len-le [] after (at_delimiter b d) e =
    let colon : b ≡ b':' = cc in absurd (apart_colon b colon d)
scheme_len-le (x ∷ before) after (at_delimiter {seen} b d) e =
    let same : x ≡ b = cc in
    let cut = scheme_len-cut seen before x (delimiter_apart x (rw same d)) in omega (arith, cut)

pub split_at-append : (k : ℕ) (s : Text) → (split_at k s).0 ++ (split_at k s).1 ≡ s
split_at-append zero s = refl
split_at-append (suc k) [] = refl
split_at-append (suc k) (x ∷ s) = ap (◌∷◌ x) (split_at-append k s)

pub span-Boundary : (seen s : Text) → Boundary seen (span (λ b. not (is_delimiter b)) s).1
unfolding span
span-Boundary seen [] = at_end
span-Boundary seen (x ∷ s) = elim (Bool-cases (is_delimiter x)) [
  | inl ends ↦ rw ends (at_delimiter x ends)
  | inr inside ↦ rw inside (span-Boundary seen s)
]

-- After a `://` that ends no scheme.
pub sep-Boundary : (seen rest : Text) → Boundary (seen ++ sep) rest
sep-Boundary seen rest =
    subst (λ (t : Text). Boundary t rest) (append_assoc seen (b':' ∷ (b'/' ∷ [])) (b'/' ∷ []))
      (after_byte (seen ++ b':' ∷ (b'/' ∷ [])) b'/' refl)

pub ℕ-cases : (n : ℕ) → (n ≡ 0) ⊎ ((m : ℕ) × (n ≡ suc m))
ℕ-cases zero = inl refl
ℕ-cases (suc m) = inr (m, refl)

pub find_sep-length :
    (s before after : Text) → find_sep s ≡ some (before, after) → length after < length s
find_sep-length s before after h =
    let whole = ap (λ (t : Text). length t) (find_sep-some s h) in
    omega (arith, whole, length-append before (sep ++ after))

pub span-rest_le : (s : Text) → length (span (λ b. not (is_delimiter b)) s).1 ≤ length s
span-rest_le s =
    let both = span-append (λ b. not (is_delimiter b)) s in
    omega (
      arith,
      ap (λ (t : Text). length t) both,
      length-append (span (λ b. not (is_delimiter b)) s).0 (span (λ b. not (is_delimiter b)) s).1,
    )
