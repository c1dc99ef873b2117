-- ===== src/Http/Swap/Scan/Walked.antt =====
-- What the walks over an authority and back over a scheme make of texts that are put together.
use mathlib.Core.List.{
  reverse, reverse-cons, reverse-append, reverse-reverse, append-nil, append_assoc,
}
use programmable_redfish_pro.Prelude.{
  ℕ, suc, ◌-◌, ◌≡◌, refl, sym, ◌∙◌, ap, Bool, true, false, ◌&&◌, not, Bool-cases, Option-cases, inl,
  inr, none, some, [], ◌∷◌, ◌++◌, Text, all, length, length-append, split_last, split_last-append,
  arith, if◌then◌else◌,
}
use programmable_redfish_pro.DeepPath.Segments.{length-reverse}
use programmable_redfish_pro.Http.Swap.{
  sep, span, is_ascii_alphabetic, is_scheme_byte, scheme_len, split_at,
}
use programmable_redfish_pro.Http.Swap.Walk.{
  span-append, reverse-cut, Boundary, at_start, after_byte, at_end, at_delimiter, delimiter_apart,
  apart_colon,
}

-- A text at which a walk does not go on.
unfoldable pub stops : (ℕ → Bool) → Text → Bool
stops p [] = true
stops p (x ∷ s) = not (p x)

pub span-front :
    (p : ℕ → Bool) (front rest : Text)
    → all p front ≡ true
    → stops p rest ≡ true
    → span p (front ++ rest) ≡ (front, rest)
unfolding span stops
span-front p [] [] a h = refl
span-front p [] (x ∷ rest) a h = let fails : p x ≡ false = ground arith in rw fails refl
span-front p (x ∷ front) rest a h =
    let one : p x ≡ true = ground arith in
    let more : all p front ≡ true = ground arith in rw (span-front p front rest more h, one) refl

pub span-passes : (p : ℕ → Bool) (s : Text) → all p (span p s).0 ≡ true
unfolding span
span-passes p [] = refl
span-passes p (x ∷ s) = elim (Bool-cases (p x)) [
  | inl passes ↦ rw (passes, passes) (span-passes p s)
  | inr fails ↦ rw fails refl
]

pub span-stops : (p : ℕ → Bool) (s : Text) → stops p (span p s).1 ≡ true
unfolding span stops
span-stops p [] = refl
span-stops p (x ∷ s) = elim (Bool-cases (p x)) [
  | inl passes ↦ rw passes (span-stops p s)
  | inr fails ↦ rw (fails, fails) refl
]

span-context :
    (p : ℕ → Bool) (s : Text) (b : ℕ) (t : Text)
    → p b ≡ false
    → (span p (s ++ b ∷ t)).0 ≡ (span p s).0
unfolding span
span-context p [] b t h = rw h refl
span-context p (x ∷ s) b t h = elim (Bool-cases (p x)) [
  | inl passes ↦ rw passes (ap (◌∷◌ x) (span-context p s b t h))
  | inr fails ↦ rw fails refl
]

all-snoc : (p : ℕ → Bool) (s : Text) (x : ℕ) → all p (s ++ x ∷ []) ≡ (all p s && p x)
all-snoc p [] x = ground arith
all-snoc p (y ∷ s) x = ground (arith, all-snoc p s x)

pub all-reverse : (p : ℕ → Bool) (s : Text) → all p s ≡ true → all p (reverse s) ≡ true
all-reverse p [] h = refl
all-reverse p (x ∷ s) h =
    let one : p x ≡ true = ground arith in
    let more : all p s ≡ true = ground arith in
    rw (reverse-cons x s, all-snoc p (reverse s) x, all-reverse p s more, one) refl

-- The length of a scheme, from the bytes that the walk has passed, the nearest first.
abbrev pub scheme_len_of : Text → ℕ
scheme_len_of walked = elim (split_last walked) [
  | none ↦ 0
  | some (nearer, first) ↦ if is_ascii_alphabetic first then length walked else 0
]

pub scheme_len-of :
    (before : Text) {walked : Text}
    → (span is_scheme_byte (reverse before)).0 ≡ walked
    → scheme_len before ≡ scheme_len_of walked
unfolding scheme_len
scheme_len-of before h = ap scheme_len_of h

-- A byte that is in no scheme hides what stands before it.
pub scheme_len-context :
    (front before : Text) (b : ℕ)
    → is_scheme_byte b ≡ false
    → scheme_len (front ++ b ∷ before) ≡ scheme_len before
scheme_len-context front before b apart =
    scheme_len-of (front ++ b ∷ before) (
      ap (λ (s : Text). (span is_scheme_byte s).0) (reverse-cut front before b)
      ∙ span-context is_scheme_byte (reverse before) b (reverse front) apart)
    ∙ sym (scheme_len-of before refl)

-- The walk back from a scheme that follows such a byte, or nothing, stops before the scheme.
pub scheme_len-scheme :
    (front scheme : Text)
    → stops is_scheme_byte (reverse front) ≡ true
    → all is_scheme_byte scheme ≡ true
    → scheme_len (front ++ scheme) ≡ scheme_len scheme
unfolding stops
scheme_len-scheme front scheme h a =
    let back = all-reverse is_scheme_byte scheme a in
    scheme_len-of (front ++ scheme) (
      ap (λ (s : Text). (span is_scheme_byte s).0) (reverse-append front scheme)
      ∙ ap (λ (p : Text × Text). p.0)
          (span-front is_scheme_byte (reverse scheme) (reverse front) back h))
    ∙ sym (
        scheme_len-of scheme (
          ap (λ (s : Text). (span is_scheme_byte s).0) (sym (append-nil (reverse scheme)))
          ∙ ap (λ (p : Text × Text). p.0)
              (span-front is_scheme_byte (reverse scheme) [] back refl)))

-- So a cursor that no scheme crosses makes no difference.
pub scheme_len-Boundary :
    {seen rest : Text} (before after : Text)
    → Boundary seen rest
    → rest ≡ before ++ (sep ++ after)
    → scheme_len (seen ++ before) ≡ scheme_len before
scheme_len-Boundary before after at_start e = refl
scheme_len-Boundary before after (after_byte front b apart) e =
    rw (append_assoc front (b ∷ []) before) (scheme_len-context front before b apart)
scheme_len-Boundary [] after at_end e = cc
scheme_len-Boundary (x ∷ before) after at_end e = cc
scheme_len-Boundary [] after (at_delimiter b d) e =
    let colon : b ≡ b':' = cc in absurd (apart_colon b colon d)
scheme_len-Boundary (x ∷ before) after (at_delimiter {seen} b d) e =
    let same : x ≡ b = cc in
    let apart = delimiter_apart x (rw same d) in
    scheme_len-context seen before x apart ∙ sym (scheme_len-context [] before x apart)

pub split_at-length : (a b : Text) → split_at (length a) (a ++ b) ≡ (a, b)
split_at-length [] b = refl
split_at-length (x ∷ a) b = rw (split_at-length a b) refl

scheme_len-walked :
    (before : Text) {n : ℕ}
    → scheme_len before ≡ suc n
    → suc n ≡ length (span is_scheme_byte (reverse before)).0
unfolding scheme_len
scheme_len-walked before h =
    elim (Option-cases (split_last (span is_scheme_byte (reverse before)).0)) [
      | inl missed ↦ ground (arith, rw (scheme_len, missed) at h)
      | inr ((nearer, first), found) ↦ elim (Bool-cases (is_ascii_alphabetic first)) [
        | inl letter ↦ sym (rw (scheme_len, found, letter) at h)
        | inr other ↦ ground (arith, rw (scheme_len, found, other) at h)
      ]
    ]

-- What the walk back over a scheme leaves before it ends in no scheme.
pub split_at-stops :
    (before : Text) (n : ℕ)
    → scheme_len before ≡ suc n
    → stops is_scheme_byte (reverse (split_at (length before - suc n) before).0) ≡ true
split_at-stops before n h =
    let walked = (span is_scheme_byte (reverse before)).0 in
    let left = (span is_scheme_byte (reverse before)).1 in
    let whole : before ≡ reverse left ++ reverse walked =
      sym (reverse-reverse before)
      ∙ ap reverse (sym (span-append is_scheme_byte (reverse before)))
      ∙ reverse-append walked left in
    let lengths = ap (λ (s : Text). length s) whole in
    let start : length before - suc n ≡ length (reverse left) = omega (
      arith,
      lengths,
      length-append (reverse left) (reverse walked),
      length-reverse walked,
      scheme_len-walked before h,
    ) in
    let cut : (split_at (length before - suc n) before).0 ≡ reverse left =
      ap (λ (k : ℕ). (split_at k before).0) start
      ∙ ap (λ (s : Text). (split_at (length (reverse left)) s).0) whole
      ∙ ap (λ (p : Text × Text). p.0) (split_at-length (reverse left) (reverse walked)) in
    ap (λ (s : Text). stops is_scheme_byte s) (ap reverse cut ∙ reverse-reverse left)
    ∙ span-stops is_scheme_byte (reverse before)

-- The length of a scheme that is the whole of a text.
pub scheme_len-letter :
    (b : ℕ) (s : Text)
    → is_ascii_alphabetic b ≡ true
    → all is_scheme_byte (b ∷ s) ≡ true
    → scheme_len (b ∷ s) ≡ suc (length s)
unfolding stops
scheme_len-letter b s letter a =
    let back = all-reverse is_scheme_byte (b ∷ s) a in
    let walked : (span is_scheme_byte (reverse (b ∷ s))).0 ≡ reverse s ++ b ∷ [] =
      ap (λ (t : Text). (span is_scheme_byte t).0) (sym (append-nil (reverse (b ∷ s))))
      ∙ ap (λ (p : Text × Text). p.0) (span-front is_scheme_byte (reverse (b ∷ s)) [] back refl)
      ∙ reverse-cons b s in
    scheme_len-of (b ∷ s) walked
    ∙ rw (scheme_len_of, split_last-append (reverse s) b, letter)
        (omega (arith, length-append (reverse s) (b ∷ []), length-reverse s))
