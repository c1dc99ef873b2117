-- ===== src/Http/Swap/Scan/Runs.antt =====
-- What stands before a `://`: a front, and the run of bytes of a scheme that ends it. The walk back of
-- `scheme_start` of src/http.rs finds the run, as Http.Url describes it.
use mathlib.Core.List.{reverse, reverse-append, reverse-reverse}
use programmable_redfish_pro.Prelude.{
  ℕ, suc, ◌-◌, ◌≡◌, refl, sym, ◌∙◌, ap, true, not, Bool-cases, inl, inr, [], ◌∷◌, ◌++◌, Text, all,
  length, length-append, split_last-append, by_last, arith, if◌then◌else◌,
}
use programmable_redfish_pro.DeepPath.Segments.{length-reverse}
use programmable_redfish_pro.Http.Url.{
  in_scheme, is_scheme, is_apart, is_open, is_ended, is_letter_lem, in_scheme_lem,
  ends_authority_lem, all-same,
}
use programmable_redfish_pro.Http.Swap.{
  span, is_ascii_alphabetic, is_scheme_byte, is_delimiter, scheme_len, split_at,
}
use programmable_redfish_pro.Http.Swap.Walk.{span-append}
use programmable_redfish_pro.Http.Swap.Scan.Walked.{
  stops, scheme_len_of, scheme_len-of, span-passes, span-stops, all-reverse, split_at-length,
}

pub is_apart-stops : (s : Text) → is_apart s ≡ stops is_scheme_byte s
unfolding is_apart stops
is_apart-stops [] = refl
is_apart-stops (b ∷ s) = ap not (in_scheme_lem b)

pub is_ended-stops : (s : Text) → is_ended s ≡ stops (λ b. not (is_delimiter b)) s
unfolding is_ended stops
is_ended-stops [] = refl
is_ended-stops (b ∷ s) = elim (Bool-cases (is_delimiter b)) [
  | inl ends ↦ rw (ends_authority_lem b, ends) refl
  | inr inside ↦ rw (ends_authority_lem b, inside) refl
]

pub all-in_scheme : (s : Text) → all in_scheme s ≡ all is_scheme_byte s
all-in_scheme s = all-same in_scheme is_scheme_byte in_scheme_lem s

-- The front and the run, and how long a scheme the run is.
pub record LastRun (before : Text) : Type 0 where
  pub front : Text
  pub run : Text
  pub parts : before ≡ front ++ run
  pub in_run : all in_scheme run ≡ true
  pub apart : is_open front ≡ true
  pub len : scheme_len before ≡ (if is_scheme run then length run else 0)

scheme_len_of-run :
    (walked : Text)
    → all in_scheme (reverse walked) ≡ true
    → scheme_len_of walked ≡ (if is_scheme (reverse walked) then length (reverse walked) else 0)
unfolding is_scheme
scheme_len_of-run =
    by_last
      (λ (w : Text).
        all in_scheme (reverse w) ≡ true
        → scheme_len_of w ≡ (if is_scheme (reverse w) then length (reverse w) else 0))
      (λ h. refl)
      (λ nearer first h.
        let turned : reverse (nearer ++ first ∷ []) ≡ first ∷ reverse nearer =
          reverse-append nearer (first ∷ []) in
        let both : all in_scheme (first ∷ reverse nearer) ≡ true = rw turned at h in
        let rest : all in_scheme (reverse nearer) ≡ true = ground (arith, both) in
        let len = length-append nearer (first ∷ []) in
        elim (Bool-cases (is_ascii_alphabetic first)) [
          | inl letter ↦
              rw
                (
                  scheme_len_of,
                  split_last-append nearer first,
                  letter,
                  turned,
                  is_scheme,
                  is_letter_lem first,
                  letter,
                  rest,
                )
                (omega (arith, len, length-reverse nearer))
          | inr other ↦
              rw
                (
                  scheme_len_of,
                  split_last-append nearer first,
                  other,
                  turned,
                  is_scheme,
                  is_letter_lem first,
                  other,
                )
                refl
        ])

pub last_run : (before : Text) → LastRun before
unfolding is_open
last_run before =
    let cut = span is_scheme_byte (reverse before) in
    let passes : all in_scheme (reverse cut.0) ≡ true =
      all-in_scheme (reverse cut.0)
      ∙ all-reverse is_scheme_byte cut.0 (span-passes is_scheme_byte (reverse before)) in
    record {
      front = reverse cut.1;
      run = reverse cut.0;
      parts =
          sym (reverse-reverse before)
          ∙ ap reverse (sym (span-append is_scheme_byte (reverse before)))
          ∙ reverse-append cut.0 cut.1;
      in_run = passes;
      apart =
          ap is_apart (reverse-reverse cut.1)
          ∙ is_apart-stops cut.1
          ∙ span-stops is_scheme_byte (reverse before);
      len = scheme_len-of before refl ∙ scheme_len_of-run cut.0 passes;
    }

-- Cutting the run off by its length gives the two parts.
pub split_at-LastRun :
    {before : Text} (l : LastRun before)
    → split_at (length before - length l.run) before ≡ (l.front, l.run)
split_at-LastRun {before} l =
    let start : length before - length l.run ≡ length l.front =
      omega (arith, ap (λ (s : Text). length s) l.parts, length-append l.front l.run) in
    rw start (ap (split_at (length l.front)) l.parts ∙ split_at-length l.front l.run)

pub length-is_scheme : (scheme : Text) → is_scheme scheme ≡ true → (n : ℕ) × (length scheme ≡ suc n)
unfolding is_scheme
length-is_scheme [] h = cc
length-is_scheme (b ∷ s) h = (length s, refl)
